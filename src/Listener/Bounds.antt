-- ===== src/Listener/Bounds.antt =====
-- What holds of the options of every command line that is read.
use rlstatsapi.Prelude.{
  ℕ, ◌^◌, ◌<◌, String, ℤ, ◌≡◌, inl, inr, false, Option, none, some, List, [], ◌∷◌, Bool-cases,
  Option-cases,
}
use rlstatsapi.Text.{Text, codes, parse_i64}
use rlstatsapi.Arguments.{Cli, refuse, accept, ◌>>=◌}
use rlstatsapi.Arguments.Reading.{
  WhenAccepted, ArmKeeps, WhenParsed, parse_all-WhenParsed, choose-ArmKeeps, number_of-WhenAccepted,
  Below,
}
use rlstatsapi.Filters.Kind.{EventKind}
use rlstatsapi.Filters.Matching.{contains, insert_kind}
use rlstatsapi.Listener.Kinds.{
  is, event_kind_from_token, normalized_token, filter_by_tokens, parse_event_filter_value,
}
use rlstatsapi.Text.Trimmed.{split_commas}
use rlstatsapi.Listener.Options.{
  OutputFormat, CliOptions, parse_output_format, no_arguments, arms, read_argument, parse_args,
  team_of,
}

-- No kind stands twice.
abbrev pub Distinct : List EventKind → Type 0
Distinct [] = Unit
Distinct (k ∷ kinds) = (contains kinds k ≡ false) × Distinct kinds

insert_kind-Distinct :
    (kinds : List EventKind) (k : EventKind) → Distinct kinds → Distinct (insert_kind kinds k)
unfolding insert_kind
insert_kind-Distinct kinds k h = elim (Bool-cases (contains kinds k)) [
  | inl old ↦ rw old h
  | inr new ↦ rw new (new, h)
]

filter_by_tokens-Distinct :
    (tokens : List Text) (before : List EventKind)
    → Distinct before
    → WhenAccepted Distinct (filter_by_tokens tokens before)
unfolding filter_by_tokens
filter_by_tokens-Distinct [] before h = h
filter_by_tokens-Distinct (token ∷ tokens) before h =
    elim (Bool-cases (is (normalized_token token) "")) [
      | inl blank ↦ rw blank (filter_by_tokens-Distinct tokens before h)
      | inr more ↦ elim (Bool-cases (is (normalized_token token) "all")) [
        | inl clear ↦ rw (more, clear) (filter_by_tokens-Distinct tokens [] tt)
        | inr keeps ↦ elim (Option-cases (event_kind_from_token (normalized_token token))) [
          | inl none_named ↦ rw (more, keeps, none_named) tt
          | inr (kind, named) ↦
              rw (more, keeps, named)
                (filter_by_tokens-Distinct tokens (insert_kind before kind)
                  (insert_kind-Distinct before kind h))
        ]
      ]
    ]

abbrev pub IsSound : CliOptions → Type 0
IsSound o = Below (2 ^ 16) o.port × (Below (2 ^ 64) o.max_events × Distinct o.event_kinds)

module _ (o : CliOptions) (h : IsSound o) where
  with_kinds :
      (c : Cli (List EventKind))
      → WhenAccepted Distinct c
      → WhenAccepted IsSound (c >>= (λ kinds. accept (record o { event_kinds = kinds })))
  with_kinds (refuse e) k = tt
  with_kinds (accept kinds) k = (h.0, (h.1.0, k))

  with_format :
      (c : Cli OutputFormat)
      → WhenAccepted IsSound (c >>= (λ format. accept (record o { output_format = format })))
  with_format (refuse e) = tt
  with_format (accept format) = h

  with_team :
      (team : Option ℤ) → WhenAccepted IsSound (team_of team (λ t. record o { team_num = some t }))
  with_team none = tt
  with_team (some t) = h

  with_events :
      (value : String)
      → WhenAccepted IsSound (
          parse_event_filter_value (codes value) o.event_kinds
          >>= (λ kinds. accept (record o { event_kinds = kinds })))
  unfolding parse_event_filter_value
  with_events value =
      with_kinds _ (filter_by_tokens-Distinct (split_commas (codes value)) o.event_kinds h.1.1)

  with_port : (n : ℕ) → n < 2 ^ 16 → IsSound (record o { port = some n })
  with_port n lt = (lt, h.1)

  with_max : (n : ℕ) → n < 2 ^ 64 → IsSound (record o { max_events = some n })
  with_max n lt = (h.0, (lt, h.1.1))

  read_argument-IsSound : (arg : String) → ArmKeeps IsSound (read_argument arg o)
  unfolding read_argument
  read_argument-IsSound arg = choose-ArmKeeps IsSound arg (arms o) (
    (λ v. h),
    (
      (λ v. h),
      (
        (λ v. number_of-WhenAccepted IsSound (2 ^ 16) (codes v) _ with_port),
        (
          with_events,
          (
            (λ v. h),
            (
              (λ v. h),
              (
                (λ v. with_team (parse_i64 (codes v))),
                (
                  (λ v. h),
                  (
                    (λ v. with_format (parse_output_format v)),
                    (
                      h,
                      (
                        h,
                        (
                          (λ v. number_of-WhenAccepted IsSound (2 ^ 64) (codes v) _ with_max),
                          (tt, (tt, (tt, tt))),
                        ),
                      ),
                    ),
                  ),
                ),
              ),
            ),
          ),
        ),
      ),
    ),
  )

-- Whatever the arguments, options that were read have a port below 2^16, a number of events below
-- 2^64, and no kind twice.
pub parse_args-IsSound : (args : List String) → WhenParsed IsSound (parse_args args)
unfolding parse_args
parse_args-IsSound args =
    parse_all-WhenParsed IsSound read_argument (λ arg o h. read_argument-IsSound o h arg) args
      no_arguments (tt, (tt, tt))
