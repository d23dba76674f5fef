-- ===== src/Cli/Init/RoundTrip.antt =====
-- After `init`, the commands read the settings that it printed.
use juno_exchange_kit.Base.{
  ◌≤◌, ◌<◌, ◌≡◌, refl, ap, sym, subst, inl, inr, ◌∙◌, Bool, true, false, Option, none, some, List,
  arith, ◌==◌, if◌then◌else◌, Bool-cases, Option-cases,
}
use juno_exchange_kit.Base.Text.{
  Text, codes, is_empty, eq_text, trim_space, trim_left, trim_right, is_space, trim_space_idem,
  to_lower,
}
use juno_exchange_kit.Base.Word.{max_uint32}
use juno_exchange_kit.Base.Decimal.{format_uint, parse_uint}
use juno_exchange_kit.Store.Schema.{MetaRow}
use juno_exchange_kit.Store.Wallets.{put_meta, meta, set_meta}
use juno_exchange_kit.Txplan.Services.{ChainResponse}
use juno_exchange_kit.Cli.Command.{
  World, Ended, returned, exited, settle, from_store, >>=_returned, exit_if_passed, returned_inj,
  unknown_chain,
}
use juno_exchange_kit.Cli.Config.{Host, resolved, open_data_dir}
use juno_exchange_kit.Cli.Setup.{stored_hrp, stored_coin_type}
use juno_exchange_kit.Cli.Init.{
  InitFlags, InitReport, Expected, ua_hrp_from_chain, coin_type_from_chain, expectation, ask_node,
  override_or, some_ended, number_of, text_of, is_initialized, confirm_settings, check_settings,
  store_settings, create_wallets, tell_scanner, initialize, run_init,
}
use juno_exchange_kit.Cli.Init.Settings.{
  read_meta, read_meta-put_meta, meta_read, parse_coin_type-format_uint,
}

-- Settings that can be stored: a prefix that is not blank, and a coin type of 32 bits.
pub record IsUsable (x : Expected) : Type 0 where
  pub hrp : is_empty (trim_space x.ua_hrp) ≡ false
  pub coin_type : x.coin_type ≤ max_uint32

abbrev stored_rows : Expected → List MetaRow → List MetaRow
stored_rows x rows = put_meta (codes "initialized") (codes "1") (
    put_meta (codes "chain") x.chain (
      put_meta (codes "account") (codes "0") (
        put_meta (codes "coin_type") (format_uint x.coin_type)
          (put_meta (codes "ua_hrp") x.ua_hrp rows))))

store_settings_rows :
    (x : Expected) (w : World)
    → store_settings x w
      ≡ (returned tt, record w { db = record w.db { meta = stored_rows x w.db.meta } })
unfolding store_settings set_meta trim_space trim_left trim_right is_space
store_settings_rows x w = refl

coin_type_stored :
    (x : Expected) (rows : List MetaRow)
    → read_meta (codes "coin_type") (stored_rows x rows) ≡ some (format_uint x.coin_type)
unfolding eq_text
coin_type_stored x rows = simp (read_meta-put_meta)

hrp_stored :
    (x : Expected) (rows : List MetaRow)
    → read_meta (codes "ua_hrp") (stored_rows x rows) ≡ some x.ua_hrp
unfolding eq_text
hrp_stored x rows = simp (read_meta-put_meta)

module _ (x : Expected) (w : World) where
  stored_coin_type_read :
      read_meta (codes "coin_type") w.db.meta ≡ some (format_uint x.coin_type)
      → 0 < x.coin_type
      → x.coin_type ≤ max_uint32
      → stored_coin_type w ≡ (returned x.coin_type, w)
  unfolding stored_coin_type trim_space trim_left trim_right is_space
  stored_coin_type_read e pos small =
      let found = meta_read (codes "coin_type") w.db refl refl in
      let parsed = parse_coin_type-format_uint x.coin_type pos small in rw (found, e, parsed) refl

  stored_hrp_read :
      read_meta (codes "ua_hrp") w.db.meta ≡ some x.ua_hrp
      → is_empty (trim_space x.ua_hrp) ≡ false
      → stored_hrp w ≡ (returned x.ua_hrp, w)
  unfolding stored_hrp
  stored_hrp_read e filled =
      let found =
        meta_read (codes "ua_hrp") w.db (unfold trim_space trim_left trim_right is_space in refl)
          refl in
      rw (found, e, filled) refl

ua_hrp_from_chain-filled :
    (chain : Text) {h : Text} → ua_hrp_from_chain chain ≡ some h → is_empty (trim_space h) ≡ false
unfolding ua_hrp_from_chain
ua_hrp_from_chain-filled chain {h} e =
    let c = to_lower (trim_space chain) in
    let j : is_empty (trim_space (codes "j")) ≡ false =
      unfold trim_space trim_left trim_right is_space in refl in
    let t : is_empty (trim_space (codes "jtest")) ≡ false =
      unfold trim_space trim_left trim_right is_space in refl in
    let r : is_empty (trim_space (codes "jregtest")) ≡ false =
      unfold trim_space trim_left trim_right is_space in refl in
    let Filled = λ (s : Text). is_empty (trim_space s) ≡ false in
    elim (Bool-cases (eq_text c (codes "main"))) [
      | inl a ↦ let same : codes "j" ≡ h = ground arith in subst Filled same j
      | inr a ↦ elim (Bool-cases (eq_text c (codes "test"))) [
        | inl b ↦ let same : codes "jtest" ≡ h = ground arith in subst Filled same t
        | inr b ↦ elim (Bool-cases (eq_text c (codes "regtest"))) [
          | inl d ↦ let same : codes "jregtest" ≡ h = ground arith in subst Filled same r
          | inr d ↦ absurd (ground arith)
        ]
      ]
    ]

coin_type_from_chain-small : (chain : Text) → coin_type_from_chain chain ≤ max_uint32
unfolding coin_type_from_chain
coin_type_from_chain-small chain = ground arith

override_or-filled :
    (flag chain : Text) {h : Text}
    → override_or flag (ua_hrp_from_chain chain) ≡ some h
    → is_empty (trim_space h) ≡ false
override_or-filled flag chain {h} e = elim (Bool-cases (is_empty (trim_space flag))) [
  | inl b ↦ ua_hrp_from_chain-filled chain (rw b at e)
  | inr b ↦
      let same : trim_space flag ≡ h = ground arith in
      let Filled = λ (s : Text). is_empty (trim_space s) ≡ false in
      subst Filled same (ap is_empty (trim_space_idem flag) ∙ b)
]

expectation-IsUsable :
    (flags : InitFlags) (o : Option ChainResponse) {x : Expected}
    → expectation flags o ≡ returned x
    → IsUsable x
unfolding expectation
expectation-IsUsable flags none h = absurd (ground arith)
expectation-IsUsable flags (some info) {x} h =
    elim (Option-cases (override_or flags.ua_hrp (ua_hrp_from_chain info.chain))) [
      | inl e ↦ absurd (ground arith)
      | inr (hrp, e) ↦
          let made : Expected = record {
            chain = to_lower (trim_space info.chain);
            ua_hrp = hrp;
            coin_type = coin_type_from_chain info.chain;
          } in
          let same : made ≡ x = ground arith in
          subst IsUsable same (record {
            hrp = override_or-filled flags.ua_hrp info.chain e;
            coin_type = coin_type_from_chain-small info.chain;
          })
    ]

some_ended-returned :
    {A : Type 0} (r : Ended A) {a : A} → some_ended r ≡ returned (some a) → r ≡ returned a
some_ended-returned (returned b) h = ground arith
some_ended-returned (exited e) h = absurd (ground arith)

ask_node-IsUsable :
    (host : Host) (flags : InitFlags) (was : Bool) (login : Ended (Text × Text × Text))
    {x : Expected}
    → ask_node host flags was login ≡ returned (some x)
    → IsUsable x
unfolding ask_node
ask_node-IsUsable host flags was (returned (url, user, pass)) h =
    expectation-IsUsable flags (host.rpc_client url user pass).blockchain_info
      (some_ended-returned (expectation flags (host.rpc_client url user pass).blockchain_info) h)
ask_node-IsUsable host flags true (exited e) h = absurd (ground arith)
ask_node-IsUsable host flags false (exited e) h = absurd (ground arith)

-- What the commands read of the settings that a report names.
abbrev pub ReadsBack : InitReport → World → Type 0
ReadsBack out w =
    (stored_hrp w ≡ (returned out.ua_hrp, w)) × (stored_coin_type w ≡ (returned out.coin_type, w))

confirm_settings-old :
    (expected : Option Expected) (w w' : World) (out : InitReport)
    → confirm_settings expected w ≡ (returned out, w')
    → out.was_initialized ≡ true
unfolding confirm_settings
confirm_settings-old expected w w' out h =
    let (hrp, v1, e1, h1) = >>=_returned (from_store (meta (codes "ua_hrp"))) (λ y. _) w h in
    let (text, v2, e2, h2) = >>=_returned (from_store (meta (codes "coin_type"))) (λ y. _) v1 h1 in
    let coin_type = number_of (parse_uint max_uint32 (trim_space (text_of text))) in
    let (u, v3, e3, h3) =
      >>=_returned (check_settings (text_of hrp) coin_type expected) (λ y. _) v2 h2 in
    let (same, stays) = returned_inj h3 in sym (ap (λ (o : InitReport). o.was_initialized) same)

module _ (host : Host) (flags : InitFlags) where
  initialize-ReadsBack :
      (dir : Text) (x : Expected) (w w' : World) (out : InitReport)
      → IsUsable x
      → initialize host flags dir (some x) w ≡ (returned out, w')
      → ReadsBack out w'
  unfolding initialize
  initialize-ReadsBack dir x w w' out usable h =
      let (some_type, h1) = exit_if_passed (x.coin_type == 0) unknown_chain _ w h in
      let (u, v1, e1, h2) = >>=_returned (create_wallets host dir x) (λ y. _) w h1 in
      let (u2, v2, e2, h3) = >>=_returned (store_settings x) (λ y. _) v1 h2 in
      let (u3, v3, e3, h4) =
        >>=_returned (settle (tell_scanner host flags.services)) (λ y. _) v2 h3 in
      let (same, stays) = returned_inj h4 in
      let (same2, rows) = returned_inj (sym (store_settings_rows x v1) ∙ e2) in
      let last : w' ≡ record v1 { db = record v1.db { meta = stored_rows x v1.db.meta } } =
        sym stays ∙ sym (ap (λ (r : Ended (Unit {0}) × World). r.1) e3) ∙ sym rows in
      let at = λ (k : Text). ap (λ (v : World). read_meta k v.db.meta) last in
      let hrp = stored_hrp_read x w' (at (codes "ua_hrp") ∙ hrp_stored x v1.db.meta) usable.hrp in
      let coin_type =
        stored_coin_type_read x w' (at (codes "coin_type") ∙ coin_type_stored x v1.db.meta)
          (ground arith) usable.coin_type in
      subst (λ (o : InitReport). ReadsBack o w') same (hrp, coin_type)

  branch-ReadsBack :
      (was : Bool) (dir : Text) (expected : Option Expected) (w w' : World) (out : InitReport)
      → ((x : Expected) → expected ≡ some x → IsUsable x)
      → (if was then confirm_settings expected else initialize host flags dir expected) w
        ≡ (returned out, w')
      → out.was_initialized ≡ false
      → ReadsBack out w'
  branch-ReadsBack true dir expected w w' out usable h new =
      let old = confirm_settings-old expected w w' out h in absurd (ground arith)
  branch-ReadsBack false dir none w w' out usable h new = absurd (unfold initialize in ground arith)
  branch-ReadsBack false dir (some x) w w' out usable h new =
      initialize-ReadsBack dir x w w' out (usable x refl) h

  -- An `init` that returns on a new data directory has stored what it prints: the commands read the same
  -- prefix and, through its decimal, the same coin type.
  pub run_init-ReadsBack :
      (w w' : World) (out : InitReport)
      → run_init host flags w ≡ (returned out, w')
      → out.was_initialized ≡ false
      → ReadsBack out w'
  unfolding run_init
  run_init-ReadsBack w w' out h new =
      let (dir, v1, e1, h1) =
        >>=_returned (settle (open_data_dir host flags.data_dir)) (λ y. _) w h in
      let (was, v2, e2, h2) = >>=_returned is_initialized (λ y. _) v1 h1 in
      let login = resolved host flags.rpc in
      let (expected, v3, e3, h3) =
        >>=_returned (settle (ask_node host flags was login)) (λ y. _) v2 h2 in
      branch-ReadsBack was dir expected v3 w' out
        (λ x e.
          ask_node-IsUsable host flags was login
            (ap (λ (r : Ended (Option Expected) × World). r.0) e3 ∙ ap returned e))
        h3 new
