-- ===== src/Listener/Tokens.antt =====
-- Which kinds of events a list of tokens selects.
use rlstatsapi.Prelude.{
  ◌≡◌, refl, ◌∙◌, Bool, true, false, not, ◌||◌, Option, none, some, List, [], ◌∷◌, inl, inr,
  Bool-cases, Option-cases, or_else, any, find, All, if◌then◌else◌, arith,
}
use rlstatsapi.Text.{
  Text, codes, eq_text, trim, trim_start, trim_end, keep_unless_blank, is_whitespace,
  to_ascii_lowercase,
}
use rlstatsapi.Text.Trimmed.{split_commas}
use rlstatsapi.Text.Case.{eq_text_iff}
use rlstatsapi.Arguments.{about, CliError, Cli, refuse, accept}
use rlstatsapi.Filters.Kind.{EventKind, eq_kind, update_state}
use rlstatsapi.Filters.Matching.{contains, insert_kind}
use rlstatsapi.Filters.Selecting.{contains-insert_kind}
use rlstatsapi.Listener.Kinds.{
  is, event_kind_from_token, event_kind_name, normalized_token, filter_by_tokens,
  parse_event_filter_value,
}

-- The name that is printed for a kind is read as that kind.
pub from_token-event_kind_name :
    (k : EventKind) → event_kind_from_token (normalized_token (codes (event_kind_name k))) ≡ some k
unfolding event_kind_from_token event_kind_name eq_text trim trim_start trim_end keep_unless_blank
    is_whitespace to_ascii_lowercase
from_token-event_kind_name update_state = refl
from_token-event_kind_name _ = refl

abbrev pub is_some_kind : Option EventKind → EventKind → Bool
is_some_kind none k = false
is_some_kind (some j) k = eq_kind k j

-- The token names the kind.
abbrev pub names : EventKind → Text → Bool
names k token = is_some_kind (event_kind_from_token (normalized_token token)) k

abbrev pub clears : Text → Bool
clears token = is (normalized_token token) "all"

abbrev pub has_kind : Option EventKind → Bool
has_kind none = false
has_kind (some k) = true

-- The token is blank, "all" or the name of a kind.
abbrev pub is_known : Text → Bool
is_known token =
    is (normalized_token token) ""
    || clears token
    || has_kind (event_kind_from_token (normalized_token token))

-- The tokens behind the last "all".
abbrev pub after_all : List Text → Option (List Text)
after_all [] = none
after_all (token ∷ tokens) = or_else (after_all tokens) (if clears token then some tokens else none)

-- A kind is chosen by a token behind the last "all", or, without any "all", by a token or before.
abbrev pub chosen_from : Option (List Text) → List Text → List EventKind → EventKind → Bool
chosen_from none tokens before k = any (names k) tokens || contains before k
chosen_from (some rest) tokens before k = any (names k) rest

abbrev pub chosen : List Text → List EventKind → EventKind → Bool
chosen tokens before k = chosen_from (after_all tokens) tokens before k

abbrev pub refusal : Text → CliError
refusal token =
    about "unknown event filter '" (normalized_token token)
      "'. Use --list-events to see valid values."

-- Either every token is known and the kinds are those chosen, or the first one that is not known is
-- refused.
abbrev pub Selects : List Text → List EventKind → Cli (List EventKind) → Type 0
Selects tokens before (accept kinds) =
    All (λ token. is_known token ≡ true) tokens
    × ((k : EventKind) → contains kinds k ≡ chosen tokens before k)
Selects tokens before (refuse e) =
    (token : Text) × (find (λ t. not (is_known t)) tokens ≡ some token) × (e ≡ refusal token)

blank-from_token : (t : Text) → is t "" ≡ true → event_kind_from_token t ≡ none
unfolding event_kind_from_token eq_text
blank-from_token t h = rw ((eq_text_iff t (codes "")).0 h)

all-from_token : (t : Text) → is t "all" ≡ true → event_kind_from_token t ≡ none
unfolding event_kind_from_token eq_text
all-from_token t h = rw ((eq_text_iff t (codes "all")).0 h)

blank-all : (t : Text) → is t "" ≡ true → is t "all" ≡ false
unfolding eq_text
blank-all t h = rw ((eq_text_iff t (codes "")).0 h)

module _ (token : Text) (tokens : List Text) where
  chosen-keeps :
      (before after : List EventKind) (k : EventKind)
      → clears token ≡ false
      → contains after k ≡ (names k token || contains before k)
      → chosen tokens after k ≡ chosen (token ∷ tokens) before k
  chosen-keeps before after k keeps h = elim (Option-cases (after_all tokens)) [
    | inl e ↦ rw (e, keeps) (ground (arith, h))
    | inr (rest, e) ↦ rw e refl
  ]

  chosen-clears :
      (before : List EventKind) (k : EventKind)
      → clears token ≡ true
      → chosen tokens [] k ≡ chosen (token ∷ tokens) before k
  unfolding contains
  chosen-clears before k clear = elim (Option-cases (after_all tokens)) [
    | inl e ↦ rw (e, clear) (ground arith)
    | inr (rest, e) ↦ rw e refl
  ]

  -- A known token moves the kinds on, and the rest of the tokens is read from there.
  known_step :
      (before after : List EventKind) (r : Cli (List EventKind))
      → is_known token ≡ true
      → ((k : EventKind) → chosen tokens after k ≡ chosen (token ∷ tokens) before k)
      → Selects tokens after r
      → Selects (token ∷ tokens) before r
  known_step before after (accept kinds) known h (all_known, same) =
      ((known, all_known), λ k. same k ∙ h k)
  known_step before after (refuse e) known h (t, first, same) = (t, (rw known first), same)

  unknown_step :
      (before : List EventKind)
      → is_known token ≡ false
      → Selects (token ∷ tokens) before (refuse (refusal token))
  unknown_step before h = (token, (rw h refl), refl)

  blank_step :
      (before : List EventKind) (r : Cli (List EventKind))
      → is (normalized_token token) "" ≡ true
      → Selects tokens before r
      → Selects (token ∷ tokens) before r
  blank_step before r blank h =
      known_step before before r (rw blank refl)
        (λ k.
          chosen-keeps before before k (blank-all (normalized_token token) blank)
            (rw (blank-from_token (normalized_token token) blank) refl))
        h

  clear_step :
      (before : List EventKind) (r : Cli (List EventKind))
      → clears token ≡ true
      → Selects tokens [] r
      → Selects (token ∷ tokens) before r
  clear_step before r clear h =
      known_step before [] r (ground (arith, clear)) (λ k. chosen-clears before k clear) h

  kind_step :
      (before : List EventKind) (kind : EventKind) (r : Cli (List EventKind))
      → clears token ≡ false
      → event_kind_from_token (normalized_token token) ≡ some kind
      → Selects tokens (insert_kind before kind) r
      → Selects (token ∷ tokens) before r
  kind_step before kind r keeps named h =
      known_step before (insert_kind before kind) r (rw named (ground arith))
        (λ k.
          chosen-keeps before (insert_kind before kind) k keeps
            (rw named (ground (arith, contains-insert_kind before kind k))))
        h

filter_by_tokens-Selects :
    (tokens : List Text) (before : List EventKind)
    → Selects tokens before (filter_by_tokens tokens before)
unfolding filter_by_tokens
filter_by_tokens-Selects [] before = (tt, λ k. refl)
filter_by_tokens-Selects (token ∷ tokens) before =
    elim (Bool-cases (is (normalized_token token) "")) [
      | inl blank ↦
          rw blank (blank_step token tokens before _ blank (filter_by_tokens-Selects tokens before))
      | inr more ↦ elim (Bool-cases (clears token)) [
        | inl clear ↦
            rw (more, clear)
              (clear_step token tokens before _ clear (filter_by_tokens-Selects tokens []))
        | inr keeps ↦ elim (Option-cases (event_kind_from_token (normalized_token token))) [
          | inl none_named ↦
              rw (more, keeps, none_named)
                (unknown_step token tokens before (rw (more, keeps, none_named) refl))
          | inr (kind, named) ↦
              rw (more, keeps, named)
                (kind_step token tokens before kind _ keeps named
                  (filter_by_tokens-Selects tokens (insert_kind before kind)))
        ]
      ]
    ]

-- A list of names separated by commas either selects the kinds it names behind its last "all", and
-- without any "all" also those from before; or its first token that is not blank, "all" or the
-- name of a kind is refused.
pub parse_event_filter_value-Selects :
    (value : Text) (before : List EventKind)
    → Selects (split_commas value) before (parse_event_filter_value value before)
unfolding parse_event_filter_value
parse_event_filter_value-Selects value before = filter_by_tokens-Selects (split_commas value) before
