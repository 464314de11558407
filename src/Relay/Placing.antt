-- ===== src/Relay/Placing.antt =====
-- Where the relay sends to.
use text.Mathlib.Text.{◌==◌}
use rlstatsapi.Prelude.{
  ℕ, ◌^◌, ◌<◌, String, ◌≡◌, ◌⊎◌, refl, inl, inr, Bool, true, false, ◌||◌, Option, none, some, List,
  Bool-cases, if◌then◌else◌, arith,
}
use rlstatsapi.Text.{codes}
use rlstatsapi.Text.Trimmed.{trim_str, is_nothing}
use rlstatsapi.Arguments.{Cli, refuse, accept, ◌>>=◌, Outcome, left, refused, parsed, choose}
use rlstatsapi.Arguments.Reading.{
  WhenAccepted, WhenParsed, parse_all-WhenParsed, choose-ArmKeeps, number_of-WhenAccepted, Below,
}
use rlstatsapi.Commands.Wire.{join}
use rlstatsapi.Relay.Target.{
  WsTarget, Url, UrlLib, starts_with, contains_str, map_ws_scheme, default_port_for_ws_scheme,
  normalize_ws_path, host_of, port_of, path_of, target_at, target_of, build_ws_target,
}
use rlstatsapi.Relay.Options.{Locals, CliOptions, initial, arms, with_target, settle, parse_args}

-- The port of a URL is a `u16`.
abbrev pub PortLaw : UrlLib → Type 0
PortLaw urls = (input : String) → WhenAccepted (λ url. Below (2 ^ 16) url.port) (urls.parse input)

-- A websocket's scheme, a port in range, and a path from the root.
pub record IsPlaced (target : WsTarget) : Type 0 where
  pub scheme : (target.scheme ≡ "ws") ⊎ (target.scheme ≡ "wss")
  pub port : target.port < 2 ^ 16
  pub path : starts_with "/" target.path ≡ true

normalize_ws_path-rooted : (path : String) → starts_with "/" (normalize_ws_path path) ≡ true
unfolding normalize_ws_path
normalize_ws_path-rooted path = elim (Bool-cases (is_nothing path || path == "/")) [
  | inl root ↦ rw root refl
  | inr other ↦ elim (Bool-cases (starts_with "/" path)) [
    | inl rooted ↦ rw (other, rooted) rooted
    | inr bare ↦ rw (other, bare) refl
  ]
]

path_of-rooted :
    (given : Option String) (of_url : String) → starts_with "/" (path_of given of_url) ≡ true
path_of-rooted none of_url = normalize_ws_path-rooted of_url
path_of-rooted (some path) of_url = normalize_ws_path-rooted path

default_port-< : (scheme : String) → default_port_for_ws_scheme scheme < 2 ^ 16
unfolding default_port_for_ws_scheme
default_port-< scheme = elim (Bool-cases (scheme == "wss")) [
  | inl secure ↦ rw secure (omega arith)
  | inr plain ↦ rw plain (omega arith)
]

port_of-< :
    (given of_url : Option ℕ) (explicit : Bool) (scheme : String)
    → Below (2 ^ 16) given
    → Below (2 ^ 16) of_url
    → port_of given of_url explicit scheme < 2 ^ 16
port_of-< (some port) of_url explicit scheme h k = h
port_of-< none (some port) explicit scheme h k = k
port_of-< none none true scheme h k = default_port-< scheme
port_of-< none none false scheme h k = omega arith

map_ws_scheme_sound :
    (scheme : String) → WhenAccepted (λ s. (s ≡ "ws") ⊎ (s ≡ "wss")) (map_ws_scheme scheme)
unfolding map_ws_scheme
map_ws_scheme_sound scheme = elim (Bool-cases (scheme == "ws" || scheme == "http")) [
  | inl plain ↦ rw plain (inl refl)
  | inr other ↦ elim (Bool-cases (scheme == "wss" || scheme == "https")) [
    | inl secure ↦ rw (other, secure) (inr refl)
    | inr bad ↦ rw (other, bad) tt
  ]
]

abbrev pub HasTarget : CliOptions → Type 0
HasTarget cli = IsPlaced cli.ws_target × Below (2 ^ 16) cli.rl_port

abbrev PortsBelow : Locals → Type 0
PortsBelow o = Below (2 ^ 16) o.rl_port × Below (2 ^ 16) o.ws_port

module _ ⦃urls : UrlLib⦄ (law : PortLaw urls) where
  with_host :
      (scheme : String) (host : Option String) (given of_url : Option ℕ) (explicit : Bool)
      (path : String)
      → (scheme ≡ "ws") ⊎ (scheme ≡ "wss")
      → Below (2 ^ 16) given
      → Below (2 ^ 16) of_url
      → starts_with "/" path ≡ true
      → WhenAccepted IsPlaced (
          host_of host >>= (λ h. accept (record {
            scheme = scheme;
            host = h;
            port = port_of given of_url explicit scheme;
            path = path;
          })))
  with_host scheme none given of_url explicit path s g u p = tt
  with_host scheme (some host) given of_url explicit path s g u p = record {
    scheme = s;
    port = port_of-< given of_url explicit scheme g u;
    path = p;
  }

  >>=-WhenAccepted :
      {A : Type 0} (P : A → Type 0) (c : Cli A) (next : A → Cli WsTarget)
      → WhenAccepted P c
      → ((a : A) → P a → WhenAccepted IsPlaced (next a))
      → WhenAccepted IsPlaced (c >>= next)
  >>=-WhenAccepted P (refuse e) next h k = tt
  >>=-WhenAccepted P (accept a) next h k = k a h

  target_at-IsPlaced :
      (trimmed : String) (given : Option ℕ) (path : Option String) (url : Url)
      → Below (2 ^ 16) given
      → Below (2 ^ 16) url.port
      → WhenAccepted IsPlaced (target_at trimmed given path url)
  unfolding target_at
  target_at-IsPlaced trimmed given path url g u =
      >>=-WhenAccepted {A = String} (λ s. (s ≡ "ws") ⊎ (s ≡ "wss")) (map_ws_scheme url.scheme) _
        (map_ws_scheme_sound url.scheme)
        (λ scheme s.
          with_host scheme url.host_str given url.port (contains_str "://" trimmed)
            (path_of path url.path) s g u (path_of-rooted path url.path))

  target_of-IsPlaced :
      (trimmed : String) (given : Option ℕ) (path : Option String)
      → Below (2 ^ 16) given
      → WhenAccepted IsPlaced (target_of trimmed given path)
  unfolding target_of
  target_of-IsPlaced trimmed given path g =
      >>=-WhenAccepted {A = Url} (λ url. Below (2 ^ 16) url.port)
        (urls.parse (if contains_str "://" trimmed then trimmed else join "ws://" trimmed))
        (λ url. target_at trimmed given path url)
        (law (if contains_str "://" trimmed then trimmed else join "ws://" trimmed))
        (λ url u. target_at-IsPlaced trimmed given path url g u)

  -- An address that is built from a port in range has a websocket's scheme, a port in range, and a
  -- path that starts at the root.
  build_ws_target-IsPlaced :
      (input : String) (given : Option ℕ) (path : Option String)
      → Below (2 ^ 16) given
      → WhenAccepted IsPlaced (build_ws_target input given path)
  unfolding build_ws_target
  build_ws_target-IsPlaced input given path g = elim (Bool-cases (is_nothing (trim_str input))) [
    | inl blank ↦ rw blank tt
    | inr host ↦ rw host (target_of-IsPlaced (trim_str input) given path g)
  ]

  with_target-HasTarget :
      (o : Locals) (c : Cli WsTarget)
      → WhenAccepted IsPlaced c
      → Below (2 ^ 16) o.rl_port
      → WhenParsed HasTarget (with_target o c)
  with_target-HasTarget o (refuse e) h p = tt
  with_target-HasTarget o (accept target) h p = (h, p)

  settle-HasTarget :
      (out : Outcome Locals) → WhenParsed PortsBelow out → WhenParsed HasTarget (settle out)
  settle-HasTarget (left prints) h = tt
  settle-HasTarget (refused e) h = tt
  settle-HasTarget (parsed o) (rl, ws) =
      with_target-HasTarget o _ (build_ws_target-IsPlaced o.ws_host o.ws_port o.ws_path ws) rl

  -- Whatever the arguments, options that were read have an address with a websocket's scheme, a
  -- port in range and a path that starts at the root, and a source port in range, when the ports
  -- of parsed URLs are in range.
  pub parse_args-HasTarget : (args : List String) → WhenParsed HasTarget (parse_args args)
  unfolding parse_args
  parse_args-HasTarget args = settle-HasTarget _ (
      parse_all-WhenParsed PortsBelow (λ arg o. choose arg (arms o))
        (λ arg o h. choose-ArmKeeps PortsBelow arg (arms o) (
          (λ v. h),
          (
            (λ v. h),
            (
              (λ v. number_of-WhenAccepted PortsBelow (2 ^ 16) (codes v) _ (λ n lt. (lt, h.1))),
              (
                (λ v. h),
                (
                  (λ v. number_of-WhenAccepted PortsBelow (2 ^ 16) (codes v) _ (λ n lt. (h.0, lt))),
                  (
                    (λ v. h),
                    (
                      (λ v. number_of-WhenAccepted PortsBelow (2 ^ 64) (codes v) _ (λ n lt. h)),
                      (
                        h,
                        (
                          (λ v. number_of-WhenAccepted PortsBelow (2 ^ 64) (codes v) _ (λ n lt. h)),
                          (tt, tt),
                        ),
                      ),
                    ),
                  ),
                ),
              ),
            ),
          ),
        ))
        args initial (tt, tt))
