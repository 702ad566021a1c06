-- ===== src/Node/Transport/Setup.antt =====
-- crates/sshe-node/src/transport.rs: the endpoint of a node (`endpoint`, `fixed_port`) and a new
-- `Dialer`. iroh's builder of endpoints is the parameter `Builders`, and what its methods set is
-- that of `IsBuilders`.
use sshe.Protocol.Limits.{alpn}
use sshe.Node.Error.{Error, transport_other}
use sshe.Prelude.{
  sym, ap, refl, ◌∙◌, arith, map_err-eq-ok, >>=-eq-ok, none, [], ◌∷◌, false, ◌≡◌, if◌then◌else◌,
  map_err, ok, some, true, ◌>>=◌, List, err, String, Option, Bool, Result, ℕ,
}
use mathlib.Core.Path.{fun_ext}
use sshe.Node.Transport.{EndpointId}

-- `UNSPECIFIED` of one family
pub data Family : Type 0 where
  v4 v6 : Family

pub record Builders : Type 1 where
  pub Builder : Type 0
  pub BindError : Type 0
  pub Endpoint : Type 0
  pub World : Type 0
  -- `Endpoint::builder(presets::N0)`
  pub builder : Builder
  pub secret_key : String → Builder → Builder
  pub alpns : List String → Builder → Builder
  pub bind_addr : Family → ℕ → Builder → Result BindError Builder
  -- with `BindOpts`, as its `is_required`
  pub bind_addr_with_opts : Family → ℕ → Bool → Builder → Result BindError Builder
  pub bind : Builder → World → Result BindError Endpoint × World

-- What a builder is set to: each socket with its port and whether it is required.
pub record Settings : Type 0 where
  pub key : Option String
  pub protocols : List String
  pub socket : Family → ℕ × Bool

abbrev same_family : Family → Family → Bool
same_family v4 v4 = true
same_family v6 v6 = true
same_family _ _ = false

-- The socket of a family, replaced.
abbrev pub with_socket : Family → ℕ × Bool → Settings → Settings
with_socket family socket s = record s {
  socket = λ f. if same_family family f then socket else s.socket f;
}

-- The sockets of a node with this `bind_port`; without one they are the defaults.
abbrev pub sockets_of : Option ℕ → (Family → ℕ × Bool) → Family → ℕ × Bool
sockets_of none defaults family = defaults family
sockets_of (some port) defaults v4 = (port, true)
sockets_of (some port) defaults v6 = (port, false)

-- the settings of a node
abbrev pub settings_of : String → Option ℕ → Settings → Settings
settings_of key bind_port defaults = record {
  key = some key;
  protocols = alpn ∷ [];
  socket = sockets_of bind_port defaults.socket;
}

module _ (b : Builders) where
  open b use {
    Builder, BindError, Endpoint, World, builder, secret_key, alpns, bind_addr, bind_addr_with_opts,
    bind,
  }

  abbrev transport : {A : Type 0} → Result BindError A → Result Error A
  transport = map_err (λ e. transport_other)

  unfoldable pub fixed_port : Builder → ℕ → Result Error Builder
  fixed_port builder port =
      transport (bind_addr v4 port builder >>= λ bound. bind_addr_with_opts v6 port false bound)

  -- the builder that is bound
  unfoldable pub built : String → Option ℕ → Result Error Builder
  built key none = ok (alpns (alpn ∷ []) (secret_key key builder))
  built key (some port) = fixed_port (alpns (alpn ∷ []) (secret_key key builder)) port

  unfoldable pub bound : Result BindError Endpoint × World → Result Error Endpoint × World
  bound (r, w) = (transport r, w)

  unfoldable pub bind_prepared : Result Error Builder → World → Result Error Endpoint × World
  bind_prepared (err e) w = (err e, w)
  bind_prepared (ok m) w = bound (bind m w)

  unfoldable pub endpoint : String → Option ℕ → World → Result Error Endpoint × World
  endpoint key bind_port = bind_prepared (built key bind_port)

  -- iroh's documentation of the builder: a setting replaces the one before it, and an address with
  -- no port of its own replaces the default socket of its family, as a required one.
  pub record IsBuilders (settings : Builder → Settings) : Type 0 where
    pub sets_key :
        (key : String) (m : Builder)
        → settings (secret_key key m) ≡ record (settings m) { key = some key }
    pub sets_alpns :
        (protocols : List String) (m : Builder)
        → settings (alpns protocols m) ≡ record (settings m) { protocols = protocols }
    pub sets_addr :
        (family : Family) (port : ℕ) (m m' : Builder)
        → bind_addr family port m ≡ ok m'
        → settings m' ≡ with_socket family (port, true) (settings m)
    pub sets_opts :
        (family : Family) (port : ℕ) (required : Bool) (m m' : Builder)
        → bind_addr_with_opts family port required m ≡ ok m'
        → settings m' ≡ with_socket family (port, required) (settings m)

  bound-ok :
      (r : Result BindError Endpoint × World) (w' : World) (e : Endpoint)
      → bound r ≡ (ok e, w')
      → r ≡ (ok e, w')
  unfolding bound
  bound-ok (ok f, w) w' e h = ground (arith, h)
  bound-ok (err f, w) w' e h = absurd (ground (arith, h))

  bind_prepared-ok :
      (r : Result Error Builder) (w w' : World) (e : Endpoint)
      → bind_prepared r w ≡ (ok e, w')
      → (m : Builder) × (r ≡ ok m) × (bind m w ≡ (ok e, w'))
  unfolding bind_prepared
  bind_prepared-ok (ok m) w w' e h = (m, refl, bound-ok (bind m w) w' e h)
  bind_prepared-ok (err f) w w' e h = absurd (ground (arith, h))

  module _ (settings : Builder → Settings) (laws : IsBuilders settings) where
    named_settings :
        (key : String)
        → settings (alpns (alpn ∷ []) (secret_key key builder))
          ≡ settings_of key none (settings builder)
    named_settings key =
        laws.sets_alpns (alpn ∷ []) (secret_key key builder)
        ∙ ap (λ (s : Settings). record s { protocols = alpn ∷ [] }) (laws.sets_key key builder)

    both_sockets :
        (port : ℕ) (s : Settings) (family : Family)
        → (with_socket v6 (port, false) (with_socket v4 (port, true) s)).socket family
          ≡ sockets_of (some port) s.socket family
    both_sockets port s v4 = refl
    both_sockets port s v6 = refl

    built-Settings :
        (key : String) (bind_port : Option ℕ) (m : Builder)
        → built key bind_port ≡ ok m
        → settings m ≡ settings_of key bind_port (settings builder)
    unfolding built fixed_port
    built-Settings key none m h =
        let same : alpns (alpn ∷ []) (secret_key key builder) ≡ m = ground (arith, h) in
        ap settings (sym same) ∙ named_settings key
    built-Settings key (some port) m h =
        let named = alpns (alpn ∷ []) (secret_key key builder) in
        let (first, two, one) = >>=-eq-ok _ (bind_addr v4 port named) (map_err-eq-ok _ _ h) in
        laws.sets_opts v6 port false first m two
        ∙ ap (with_socket v6 (port, false)) (laws.sets_addr v4 port named first one)
        ∙ ap (λ s. with_socket v6 (port, false) (with_socket v4 (port, true) s))
            (named_settings key)
        ∙ ap
            (λ (f : Family → ℕ × Bool). record (settings_of key none (settings builder)) {
              socket = f;
            })
            (fun_ext (both_sockets port (settings builder)))

    -- An endpoint comes from a bound builder that has the node's key, speaks sshe and nothing else,
    -- and has the sockets of the port: both at this port, with the one for IPv6 not required, or
    -- the defaults where no port is set; if iroh's builder sets what its documentation says
    -- (`IsBuilders`).
    pub endpoint-Settings :
        (key : String) (bind_port : Option ℕ) (w w' : World) (e : Endpoint)
        → endpoint key bind_port w ≡ (ok e, w')
        → (m : Builder) × (bind m w ≡ (ok e, w'))
          × (settings m ≡ settings_of key bind_port (settings builder))
    unfolding endpoint
    endpoint-Settings key bind_port w w' e h =
        let (m, made, is_bound) = bind_prepared-ok (built key bind_port) w w' e h in
        (m, is_bound, built-Settings key bind_port m made)

-- `Dialer::new`: each configured peer has a slot, and no connection in it
abbrev pub new_slots : {Conn : Type 0} → EndpointId → Option Conn
new_slots id = none
