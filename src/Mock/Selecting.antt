-- ===== src/Mock/Selecting.antt =====
-- What `select_scenario` selects.
use rlstatsapi.Prelude.{
  ◌≡◌, ◌≢◌, refl, sym, ap, inl, inr, Bool, true, false, not, ◌||◌, ◌&&◌, ◌∙◌, List, [], ◌∷◌, map,
  any, any-map, All, is_empty, Bool-cases, arith,
}
use rlstatsapi.Text.{Text, codes, eq_text}
use rlstatsapi.Text.Case.{eq_text_iff}
use rlstatsapi.Text.Ordered.{
  sorted_set, Increasing, sorted_set-Increasing, any-sorted_set, sorted_set-All,
  is_empty-sorted_set,
}
use rlstatsapi.Sos.Translate.{SosEnvelope}
use rlstatsapi.Mock.Scenario.{
  Selection, unknown_events, empty_scenario, selection, events_of, is_named, is_event, is_wanted,
  unknown_filters, wanted_templates, available_events, select_scenario,
}

at_known :
    (same later event : Bool)
    → (same ≡ true → event ≡ true)
    → (later && not event) ≡ ((same || later) && not event)
at_known true later event h = rw (h refl) (ground arith)
at_known false later event h = refl

at_unknown :
    (same later event : Bool)
    → (same ≡ true → event ≡ false)
    → (same || (later && not event)) ≡ ((same || later) && not event)
at_unknown true later event h = rw (h refl) refl
at_unknown false later event h = refl

module _ {N : Type 0} (templates : List (SosEnvelope N)) where
  -- Either some filters are refused, in order and once each, which are those that no template has,
  -- with the names of the templates, in order and once each; or the selection has an envelope for
  -- each filter and only such that are wanted.
  abbrev pub IsSelected : List Text → Selection N → Type 0
  IsSelected filters (unknown_events unknown known) =
      (unknown ≢ [])
      × (All (λ filter. is_event templates filter ≡ false) unknown
          × (Increasing unknown
              × (((f : Text)
                    → any (eq_text f) unknown
                      ≡ (any (eq_text f) filters && not (is_event templates f)))
                  × (Increasing known
                      × ((f : Text) → any (eq_text f) known ≡ is_event templates f)))))
  IsSelected filters empty_scenario = ⊥
  IsSelected filters (selection envelopes) =
      All (λ filter. any (is_named filter) envelopes ≡ true) filters
      × All (λ envelope. is_wanted filters envelope ≡ true) envelopes

  any-unknown_filters :
      (f : Text) (filters : List Text)
      → any (eq_text f) (unknown_filters templates filters)
        ≡ (any (eq_text f) filters && not (is_event templates f))
  any-unknown_filters f [] = refl
  any-unknown_filters f (g ∷ filters) = elim (Bool-cases (is_event templates g)) [
    | inl event ↦
        rw (event, any-unknown_filters f filters)
          (at_known (eq_text f g) (any (eq_text f) filters) (is_event templates f)
            (λ same. as_event same ∙ event))
    | inr other ↦
        rw (other, any-unknown_filters f filters)
          (at_unknown (eq_text f g) (any (eq_text f) filters) (is_event templates f)
            (λ same. as_event same ∙ other))
  ]
    where
      as_event : eq_text f g ≡ true → is_event templates f ≡ is_event templates g
      as_event same = ap (is_event templates) ((eq_text_iff f g).0 same)

  any-available_events :
      (f : Text) → any (eq_text f) (available_events templates) ≡ is_event templates f
  unfolding available_events
  any-available_events f =
      any-sorted_set f (map codes (events_of templates))
      ∙ any-map (eq_text f) codes (events_of templates)
      ∙ any-map (λ event. eq_text f (codes event)) (λ envelope. envelope.event) templates

  unknown_sound :
      (filters : List Text)
      → All (λ filter. is_event templates filter ≡ false) (unknown_filters templates filters)
  unknown_sound [] = tt
  unknown_sound (f ∷ filters) = elim (Bool-cases (is_event templates f)) [
    | inl event ↦ rw event (unknown_sound filters)
    | inr other ↦ rw other (other, unknown_sound filters)
  ]

  refused_sound :
      (filters : List Text)
      → is_empty (sorted_set (unknown_filters templates filters)) ≡ false
      → IsSelected filters (
          unknown_events
            (sorted_set (unknown_filters templates filters))
            (available_events templates))
  unfolding available_events
  refused_sound filters some_unknown = (
    nonempty (sorted_set (unknown_filters templates filters)) some_unknown,
    (
      sorted_set-All _ (unknown_filters templates filters) (unknown_sound filters),
      (
        sorted_set-Increasing (unknown_filters templates filters),
        (
          (λ f.
              any-sorted_set f (unknown_filters templates filters) ∙ any-unknown_filters f filters),
          (sorted_set-Increasing (map codes (events_of templates)), any-available_events),
        ),
      ),
    ),
  )
    where
      nonempty : (us : List Text) → is_empty us ≡ false → us ≢ []
      nonempty [] h e = cc
      nonempty (u ∷ us) h e = cc

  none_unknown :
      (filters : List Text)
      → is_empty (unknown_filters templates filters) ≡ true
      → All (λ filter. is_event templates filter ≡ true) filters
  none_unknown [] h = tt
  none_unknown (f ∷ filters) h = elim (Bool-cases (is_event templates f)) [
    | inl event ↦ (event, none_unknown filters (rw event at h))
    | inr other ↦ cc (rw other at h)
  ]

module _ {N : Type 0} where
  wanted_sound :
      (filters : List Text) (templates : List (SosEnvelope N))
      → All (λ envelope. is_wanted filters envelope ≡ true) (wanted_templates filters templates)
  wanted_sound filters [] = tt
  wanted_sound filters (e ∷ templates) = elim (Bool-cases (is_wanted filters e)) [
    | inl wanted ↦ rw wanted (wanted, wanted_sound filters templates)
    | inr other ↦ rw other (wanted_sound filters templates)
  ]

  -- A wanted template stays.
  wanted_found :
      (filters : List Text) (f : Text)
      → ((e : SosEnvelope N) → is_named f e ≡ true → is_wanted filters e ≡ true)
      → (templates : List (SosEnvelope N)) → is_event templates f ≡ true
      → any (is_named f) (wanted_templates filters templates) ≡ true
  wanted_found filters f in_filters [] h = h
  wanted_found filters f in_filters (e ∷ templates) h = elim (Bool-cases (is_named f e)) [
    | inl here ↦ rw (in_filters e here, here) refl
    | inr other ↦ elim (Bool-cases (is_wanted filters e)) [
      | inl wanted ↦
          rw (wanted, other) (wanted_found filters f in_filters templates (rw other at h))
      | inr dropped ↦ rw dropped (wanted_found filters f in_filters templates (rw other at h))
    ]
  ]

  each_found :
      (filters : List Text) (templates : List (SosEnvelope N)) (some_filters : List Text)
      → ((e : SosEnvelope N) → is_wanted some_filters e ≡ true → is_wanted filters e ≡ true)
      → All (λ filter. is_event templates filter ≡ true) some_filters
      → All
          (λ filter. any (is_named filter) (wanted_templates filters templates) ≡ true)
          some_filters
  each_found filters templates [] within h = tt
  each_found filters templates (f ∷ more) within (here, later) = (
    wanted_found filters f (λ e named. within e (rw named refl)) templates here,
    each_found filters templates more
        (λ e wanted. within e (or_later (is_named f e) (is_wanted more e) wanted)) later,
  )
    where
      or_later : (a b : Bool) → b ≡ true → (a || b) ≡ true
      or_later a b h = ground (arith, h)

  not_empty :
      (filter : Text) (envelopes : List (SosEnvelope N))
      → any (is_named filter) envelopes ≡ true
      → is_empty envelopes ≡ false
  not_empty filter [] h = sym h
  not_empty filter (e ∷ envelopes) h = refl

  -- With at least one filter, either filters are refused, which are those that no template has, or
  -- the scenario has an envelope for each filter, and none that no filter names: it is never
  -- empty. The refused filters, and the names of the templates beside them, are sorted, each once.
  pub select_scenario-IsSelected :
      (templates : List (SosEnvelope N)) (first : Text) (filters : List Text)
      → IsSelected templates (first ∷ filters) (select_scenario templates (first ∷ filters))
  unfolding select_scenario
  select_scenario-IsSelected templates first filters =
      let all = first ∷ filters in
      let unknown = unknown_filters templates all in
      elim (Bool-cases (is_empty (sorted_set unknown))) [
        | inr some_unknown ↦ rw some_unknown (refused_sound templates all some_unknown)
        | inl known ↦
            let found =
              each_found all templates all (λ e w. w)
                (none_unknown templates all (sym (is_empty-sorted_set unknown) ∙ known)) in
            rw (known, not_empty first (wanted_templates all templates) found.0)
              (found, wanted_sound all templates)
      ]
