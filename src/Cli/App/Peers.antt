-- ===== src/Cli/App/Peers.antt =====
-- The address book after `peer add` and `peer remove`.
use Prim.Native.String.{◌++◌ as append}
use sshe.Prelude.Maps
use sshe.Prelude.Maps.{string_key, Map, same_key, get-insert, get-remove}
use sshe.Prelude.{
  fail_if-is_none, fail_if-is_some, ok_or-eq-ok, String, Option, Result, ok, err, ok_or, map_err,
  is_some, is_none, fail_if, ◌≡◌, ap, sym, ◌∙◌, refl, subst, false, if◌then◌else◌, inl, inr,
  Option-cases, Result-cases, >>=-eq-ok, arith, some, none, [],
}
use sshe.Node.Error as NodeError
use sshe.Node.Config.{Config, Paths, Toml, Files, Peer, read, save, resolved, validate_alias}
use sshe.Node.Config.Saved.{read-identity, IsFaithful, PrintsBack, read-save}
use sshe.Cli.Args.{PeerAction}
use sshe.Cli.App.{Error, edited, saved, peer}

pub ok_some-eq :
    {a b : Config} → ◌≡◌ {A = Result Error (Option Config)} (ok (some a)) (ok (some b)) → a ≡ b
ok_some-eq {a} {b} h =
    ap (λ r. elim r as (λ _. Config) [ ok (some c) ↦ c | ok none ↦ a | err e ↦ a ]) h

module _ (paths : Paths) (toml : Toml) (files : Files) (parse_id : String → Option String)
    (peers_json : Map String Peer → Option String) where
  -- What an action makes of a configuration: nothing but the entry of the alias changes; one that
  -- is added was not there, and one that is removed was.
  abbrev pub Edited : PeerAction → Config → Config → Type 0
  Edited PeerAction.list cfg cfg' = cfg' ≡ cfg
  Edited (PeerAction.add alias endpoint_id) cfg cfg' =
      (id : String) × (parse_id endpoint_id ≡ some id)
      × (Maps.get alias cfg.peers ≡ none)
      × (cfg' ≡ record cfg { peers = cfg'.peers })
      × ((other : String)
          → Maps.get other cfg'.peers ≡ (
              if same_key other alias
              then some (record { id = id; addrs = [] })
              else Maps.get other cfg.peers))
  Edited (PeerAction.remove alias) cfg cfg' =
      (p : Peer) × (Maps.get alias cfg.peers ≡ some p)
      × (cfg' ≡ record cfg { peers = cfg'.peers })
      × ((other : String)
          → Maps.get other cfg'.peers
            ≡ (if same_key other alias then none else Maps.get other cfg.peers))

  edited-Edited :
      (action : PeerAction) (cfg cfg' : Config)
      → edited paths toml files parse_id peers_json action cfg ≡ ok (some cfg')
      → Edited action cfg cfg'
  unfolding edited
  edited-Edited PeerAction.list cfg cfg' h = elim (Option-cases (peers_json cfg.peers)) [
    | inl lost ↦ absurd (ground (arith, lost, h))
    | inr (text, printed) ↦ absurd (ground (arith, printed, h))
  ]
  edited-Edited (PeerAction.add alias endpoint_id) cfg cfg' h =
      let (_, h₁, valid) = >>=-eq-ok _ (map_err Error.node (validate_alias alias)) h in
      let (_, h₂, free) =
        >>=-eq-ok _
          (fail_if (is_some (Maps.get alias cfg.peers))
            (Error.bail "alias already exists; remove it explicitly before replacing"))
          h₁ in
      let (id, h₃, parsed) = >>=-eq-ok _ (ok_or (parse_id endpoint_id) Error.invalid_id) h₂ in
      let made : record cfg { peers = Maps.insert alias (record { id = id; addrs = [] }) cfg.peers }
          ≡ cfg' =
        ok_some-eq h₃ in
      subst (Edited (PeerAction.add alias endpoint_id) cfg) made (
        id,
        ok_or-eq-ok (parse_id endpoint_id) _ parsed,
        fail_if-is_some (Maps.get alias cfg.peers) _ free,
        refl,
        λ other. get-insert alias other _ cfg.peers,
      )
  edited-Edited (PeerAction.remove alias) cfg cfg' h =
      let (_, h₁, there) =
        >>=-eq-ok _
          (fail_if (is_none (Maps.get alias cfg.peers))
            (Error.bail (append "unknown peer: " alias)))
          h in
      let (p, found) = fail_if-is_none (Maps.get alias cfg.peers) _ there in
      subst (Edited (PeerAction.remove alias) cfg) (ok_some-eq h₁)
        (p, found, refl, λ other. get-remove alias other cfg.peers)

  edited-none :
      (action : PeerAction) (cfg : Config)
      → edited paths toml files parse_id peers_json action cfg ≡ ok none
      → Edited action cfg cfg
  unfolding edited
  edited-none PeerAction.list cfg h = refl
  edited-none (PeerAction.add alias endpoint_id) cfg h =
      let (_, h₁, valid) = >>=-eq-ok _ (map_err Error.node (validate_alias alias)) h in
      let (_, h₂, free) =
        >>=-eq-ok _
          (fail_if (is_some (Maps.get alias cfg.peers))
            (Error.bail "alias already exists; remove it explicitly before replacing"))
          h₁ in
      let (id, h₃, parsed) = >>=-eq-ok _ (ok_or (parse_id endpoint_id) Error.invalid_id) h₂ in
      absurd (ground (arith, h₃))
  edited-none (PeerAction.remove alias) cfg h =
      let (_, h₁, there) =
        >>=-eq-ok _
          (fail_if (is_none (Maps.get alias cfg.peers))
            (Error.bail (append "unknown peer: " alias)))
          h in
      absurd (ground (arith, h₁))

  edited_saved-ok :
      (r : Result NodeError.Error Unit × files.World) (w' : files.World)
      → saved paths toml files parse_id peers_json r ≡ (ok tt, w')
      → r ≡ (ok tt, w')
  unfolding saved
  edited_saved-ok (ok u, w) w' h = ap (λ p. (ok tt, p.1)) h
  edited_saved-ok (err e, w) w' h = absurd (ground arith)

  peer_saves :
      (action : PeerAction) (w : files.World) (path : String) (cfg cfg' : Config)
      → read paths toml files w path ≡ ok cfg
      → edited paths toml files parse_id peers_json action cfg ≡ ok (some cfg')
      → peer paths toml files parse_id peers_json action path w
        ≡ saved paths toml files parse_id peers_json (save paths toml files w path cfg')
  unfolding peer
  peer_saves action w path cfg cfg' found made = rw (found, peer) (rw (made, peer) refl)

  identity-Edited :
      (action : PeerAction) (cfg cfg' : Config)
      → Edited action cfg cfg'
      → cfg'.identity ≡ cfg.identity
  identity-Edited PeerAction.list cfg cfg' same = ap (λ c. c.identity) same
  identity-Edited (PeerAction.add alias endpoint_id) cfg cfg' (id, parsed, free, same, others) =
      ap (λ c. c.identity) same
  identity-Edited (PeerAction.remove alias) cfg cfg' (p, found, same, others) =
      ap (λ c. c.identity) same

  is_absolute :
      (w : files.World) (path : String) (cfg cfg' : Config) (action : PeerAction)
      → ((identity : String) → paths.is_relative (resolved paths path identity) ≡ false)
      → read paths toml files w path ≡ ok cfg
      → Edited action cfg cfg'
      → paths.is_relative cfg'.identity ≡ false
  is_absolute w path cfg cfg' action absolute found change =
      let (identity, same) = read-identity paths toml files w path cfg found in
      subst (λ i. paths.is_relative i ≡ false) (same ∙ sym (identity-Edited action cfg cfg' change))
        (absolute identity)

  -- When `peer` reports success, there was a configuration to read, and the file reads back as
  -- that configuration with the change that was asked for and no other; if the file system keeps
  -- what is written (`IsFaithful`), the directory's path is absolute, and the TOML text of the
  -- changed configuration parses to it.
  pub peer-Edited :
      IsFaithful paths toml files
      → (action : PeerAction) (path : String) (w w' : files.World)
      → ((identity : String) → paths.is_relative (resolved paths path identity) ≡ false)
      → ((cfg cfg' : Config)
          → read paths toml files w path ≡ ok cfg
          → edited paths toml files parse_id peers_json action cfg ≡ ok (some cfg')
          → PrintsBack paths toml files path cfg')
      → peer paths toml files parse_id peers_json action path w ≡ (ok tt, w')
      → (cfg : Config) × (cfg' : Config) × (read paths toml files w path ≡ ok cfg)
        × (read paths toml files w' path ≡ ok cfg')
        × Edited action cfg cfg'
  unfolding peer
  peer-Edited faithful action path w w' absolute prints done =
      elim (Result-cases (read paths toml files w path)) [
        | inr (e, failed) ↦ absurd (ground (arith, failed, done))
        | inl (cfg, found) ↦
            elim (Result-cases (edited paths toml files parse_id peers_json action cfg)) [
              | inr (e, failed) ↦ absurd (ground (arith, found, failed, done))
              | inl (none, made) ↦
                  let same : w ≡ w' = ground (arith, found, made, done) in
                  (
                    cfg,
                    cfg,
                    found,
                    subst (λ x. read paths toml files x path ≡ ok cfg) same found,
                    edited-none action cfg made,
                  )
              | inl (some cfg', made) ↦
                  let stored = sym (peer_saves action w path cfg cfg' found made) ∙ done in
                  let change = edited-Edited action cfg cfg' made in
                  (
                    cfg,
                    cfg',
                    found,
                    read-save paths toml files faithful w w' path cfg'
                        (is_absolute w path cfg cfg' action absolute found change)
                        (prints cfg cfg' found made) (edited_saved-ok _ w' stored),
                    change,
                  )
            ]
      ]
