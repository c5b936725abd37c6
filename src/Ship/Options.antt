-- ===== src/Ship/Options.antt =====
-- The options of the receiver: `plugin_initialize` in src/ship_receiver_plugin.cpp. A text is the list
-- of its characters' codes.
use eos_evm_node.Base.{
  ℕ, zero, suc, ◌≡◌, ◌≢◌, refl, ap, ◌∙◌, Bool-cases, inl, inr, Option, none, some, List, [], ◌∷◌,
  ◌++◌, All, ◌==◌, ==→eq, if◌then◌else◌,
}
use eos_evm_node.Ship.Connection.{Receiver, initial}

-- The options, of which the last three may be missing; the account is an eosio::name.
pub record Options : Type 0 where
  pub ship_endpoint : List ℕ
  pub ship_core_account : ℕ
  pub ship_max_retry : Option ℕ
  pub ship_delay_second : Option ℕ
  pub ship_start_from_canonical_height : Option ℕ

-- The fields that `init` sets.
pub record Plugin : Type 0 where
  pub host : List ℕ
  pub port : List ℕ
  pub core_account : ℕ
  pub delay_second : ℕ
  pub receiver : Receiver

abbrev pub colon : ℕ
colon = 58

abbrev pub next : Option ℕ → Option ℕ
next none = none
next (some i) = some (suc i)

-- `std::string::find` of a character; `none` is `npos`.
unfoldable pub find_char : ℕ → List ℕ → Option ℕ
find_char c [] = none
find_char c (x ∷ xs) = let later = find_char c xs in if x == c then some 0 else next later

abbrev pub take_chars : ℕ → List ℕ → List ℕ
take_chars zero xs = []
take_chars (suc i) [] = []
take_chars (suc i) (x ∷ xs) = x ∷ take_chars i xs

abbrev pub drop_chars : ℕ → List ℕ → List ℕ
drop_chars zero xs = xs
drop_chars (suc i) [] = []
drop_chars (suc i) (x ∷ xs) = drop_chars i xs

-- `endpoint.substr(0, i)` and `endpoint.substr(i+1)`, where `npos + 1` is 0.
unfoldable pub split_at : Option ℕ → List ℕ → List ℕ × List ℕ
split_at none endpoint = (endpoint, endpoint)
split_at (some i) endpoint = (take_chars i endpoint, drop_chars (suc i) endpoint)

unfoldable pub split_endpoint : List ℕ → List ℕ × List ℕ
unfolding find_char split_at
split_endpoint endpoint = split_at (find_char colon endpoint) endpoint

abbrev pub or_default : ℕ → Option ℕ → ℕ
or_default default none = default
or_default default (some n) = n

unfoldable pub plugin_initialize : Options → Plugin
unfolding split_endpoint initial
plugin_initialize options =
    let (host, port) = split_endpoint options.ship_endpoint in
    record {
      host = host;
      port = port;
      core_account = options.ship_core_account;
      delay_second = or_default 10 options.ship_delay_second;
      receiver =
          initial options.ship_start_from_canonical_height (or_default 0 options.ship_max_retry);
    }

find_char-append :
    (host port : List ℕ)
    → All (λ c. c ≢ colon) host
    → (i : ℕ) × (find_char colon (host ++ colon ∷ port) ≡ some i)
      × (take_chars i (host ++ colon ∷ port) ≡ host)
      × (drop_chars (suc i) (host ++ colon ∷ port) ≡ port)
unfolding find_char
find_char-append [] port h = (0, refl, refl, refl)
find_char-append (x ∷ host) port h =
    let (i, found, before, after) = find_char-append host port h.1 in
    elim (Bool-cases (x == colon)) [
      | inl same ↦ absurd (h.0 (==→eq _ _ same))
      | inr apart ↦ (suc i, rw (apart, found) refl, ap (λ l. x ∷ l) before, after)
    ]

find_char-none : (host : List ℕ) → All (λ c. c ≢ colon) host → find_char colon host ≡ none
unfolding find_char
find_char-none [] h = refl
find_char-none (x ∷ host) h = elim (Bool-cases (x == colon)) [
  | inl same ↦ absurd (h.0 (==→eq _ _ same))
  | inr apart ↦ rw (apart, find_char-none host h.1) refl
]

split_endpoint-append :
    (host port : List ℕ)
    → All (λ c. c ≢ colon) host
    → split_endpoint (host ++ colon ∷ port) ≡ (host, port)
unfolding split_endpoint split_at
split_endpoint-append host port h =
    let (i, found, before, after) = find_char-append host port h in
    rw found
      (ap (λ l. (l, drop_chars (suc i) (host ++ colon ∷ port))) before ∙ ap (λ l. (host, l)) after)

split_endpoint-plain :
    (host : List ℕ) → All (λ c. c ≢ colon) host → split_endpoint host ≡ (host, host)
unfolding split_endpoint split_at
split_endpoint-plain host h = rw (find_char-none host h) refl

abbrev pub with_endpoint : List ℕ → Options → Options
with_endpoint endpoint options = record options { ship_endpoint = endpoint }

-- For a host without a colon, an endpoint of host, colon and port sets these, whatever the port is;
-- an endpoint without a colon is set as both host and port.
pub plugin_initialize-endpoint :
    (options : Options) (host port : List ℕ)
    → All (λ c. c ≢ colon) host
    → ((plugin_initialize (with_endpoint (host ++ colon ∷ port) options)).host ≡ host)
      × ((plugin_initialize (with_endpoint (host ++ colon ∷ port) options)).port ≡ port)
      × ((plugin_initialize (with_endpoint host options)).host ≡ host)
      × ((plugin_initialize (with_endpoint host options)).port ≡ host)
unfolding plugin_initialize
plugin_initialize-endpoint options host port h = (
  ap (λ e. e.0) (split_endpoint-append host port h),
  ap (λ e. e.1) (split_endpoint-append host port h),
  ap (λ e. e.0) (split_endpoint-plain host h),
  ap (λ e. e.1) (split_endpoint-plain host h),
)
