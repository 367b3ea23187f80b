-- ===== src/Insurance/History.antt =====
-- The histories of the contract of insurance/src/lib.rs.
use invofi_contracts.Prelude.{◌≡◌, refl, inl, inr, some, List, [], ◌∷◌, arith}
use invofi_contracts.Prelude.Int.{pos, int_laws, ◌+ℤ◌}
use invofi_contracts.Prelude.Maps.{ℕ_key}
use invofi_contracts.Host.Outcome.{Address, Hash, Result, ok, err, Invocation, Result-cases}
use invofi_contracts.Common.Types.{Text}
use invofi_contracts.Common.Version.{parse_semantic_version}
use invofi_contracts.Common.Upgrade.{initialize_contract_version}
use invofi_contracts.Common.Governance.{init_admin_config}
use invofi_contracts.Common.Clients.{Token, RegistryClient}
use invofi_contracts.Common.Contract.Administration.{one_signer, administer-IsGoverned}
use invofi_contracts.Insurance.State.{Insurance, load_tier_pool}
use invofi_contracts.Insurance.Settings.{constructor}
use invofi_contracts.Insurance.FlatBalance.{stake-IsBalanced, unstake-IsBalanced}
use invofi_contracts.Insurance.FlatPayout.{pay_out_amount}
use invofi_contracts.Insurance.Reservations.{shift}
use invofi_contracts.Insurance.Settlement.{settle_owed}
use invofi_contracts.Insurance.Promises.{reserve_payout_lem}
use invofi_contracts.Insurance.Claims.{claim_payout_lem}
use invofi_contracts.Insurance.TierBalance.{stake_tier-TiersBalanced, unstake_tier-TiersBalanced}
use invofi_contracts.Insurance.TierClaims.{pay_out_tier_lem, claim_payout_tier_lem}
use invofi_contracts.Insurance.TierReservations.{reserve_payout_tier_lem}
use invofi_contracts.Insurance.Frames as Frames
use invofi_contracts.Insurance.Frames.{SameFlat, SameReserved, SameTiers, SameAdmin, SameMoney}
use invofi_contracts.Insurance.Calls.{PoolCall, forget, forget_alone, alone, perform, after, run}
use invofi_contracts.Insurance.Solid.{
  IsSolid, keep-IsBalanced, keep-IsGoverned, flat_step, tier_step, reserve_step, settings_step,
}

module _ {W : Type 0} where
  forget-eq {ℓ} :
      {A : Type ℓ} (r : Result (A × Insurance × W)) {s' : Insurance} {w' : W}
      → forget r ≡ ok (s', w')
      → (a : A) × (r ≡ ok (a, s', w'))
  forget-eq (err e) h = cc
  forget-eq (ok (a, s, w)) h = (a, cc)

  forget_alone-eq {ℓ} :
      {A : Type ℓ} (w : W) (r : Result (A × Insurance)) {s' : Insurance} {w' : W}
      → forget_alone w r ≡ ok (s', w')
      → (a : A) × (r ≡ ok (a, s'))
  forget_alone-eq w (err e) h = cc
  forget_alone-eq w (ok (a, s)) h = (a, cc)

  alone-eq :
      (w : W) (r : Result Insurance) {s' : Insurance} {w' : W} → alone w r ≡ ok (s', w') → r ≡ ok s'
  alone-eq w (err e) h = cc
  alone-eq w (ok s) h = cc

module _ {W : Type 0} (token : Token W) (registry : RegistryClient W) where
  -- Every call that succeeds keeps the contract solid.
  pub perform-IsSolid :
      (c : Invocation) (call : PoolCall) (s : Insurance) (w : W) {s' : Insurance} {w' : W}
      → IsSolid s
      → perform token registry c call s w ≡ ok (s', w')
      → IsSolid s'
  unfolding perform
  perform-IsSolid c (PoolCall.stake who amt) s w {s'} i h =
      flat_step s s' (Frames.stake-frame token registry c who amt s w h) i
        (stake-IsBalanced token c who amt s w i.balanced h)
  perform-IsSolid c (PoolCall.unstake who amt) s w {s'} i h =
      flat_step s s' (Frames.unstake-frame token registry c who amt s w h) i
        (unstake-IsBalanced token c who amt s w i.balanced h)
  perform-IsSolid c (PoolCall.stake_tier who tier amt) s w {s'} i h =
      tier_step s s' (Frames.stake_tier-frame token registry c who tier amt s w h) i
        (stake_tier-TiersBalanced token c who tier amt s w i.tiers h)
  perform-IsSolid c (PoolCall.unstake_tier who tier amt) s w {s'} i h =
      tier_step s s' (Frames.unstake_tier-frame token registry c who tier amt s w h) i
        (unstake_tier-TiersBalanced token c who tier amt s w i.tiers h)
  perform-IsSolid c (PoolCall.pay_out invoice_id who amt) s w {s'} i h =
      let (p, e) = forget-eq _ h in
      flat_step s s' (Frames.pay_out-frame token registry c invoice_id who amt s w e) i
        (pay_out_amount token registry c invoice_id who amt s w i.balanced e).2
  perform-IsSolid c (PoolCall.pay_out_tier invoice_id tier who amt) s w {s'} i h =
      let (p, e) = forget-eq _ h in
      tier_step s s' (Frames.pay_out_tier-frame token registry c invoice_id tier who amt s w e) i
        (pay_out_tier_lem token c registry invoice_id tier who amt s w i.tiers e).1
  perform-IsSolid c (PoolCall.reserve_payout k amt) s w {s'} i h =
      let (r, e) = forget_alone-eq w _ h in
      let done = reserve_payout_lem c k amt s i.owed i.reserved e in
      reserve_step s s' (shift k r i.owed) (Frames.reserve_payout-frame token registry c k amt s e)
        i (keep-IsBalanced s s' (done.3, done.2) i.balanced) done.4
  perform-IsSolid c (PoolCall.claim_payout k who amt) s w {s'} i h =
      let ((p, left), e) = forget-eq _ h in
      let done = claim_payout_lem token c k who amt s w i.owed i.balanced i.reserved e in
      reserve_step s s' (settle_owed k p i.owed)
        (Frames.claim_payout-frame token registry c k who amt s w e) i done.3 done.4
  perform-IsSolid c (PoolCall.reserve_payout_tier k tier amt) s w {s'} i h =
      let (r, e) = forget_alone-eq w _ h in
      tier_step s s' (Frames.reserve_payout_tier-frame token registry c k tier amt s e) i
        (reserve_payout_tier_lem c k tier amt s i.tiers e).3
  perform-IsSolid c (PoolCall.claim_payout_tier k tier who amt) s w {s'} i h =
      let ((p, left), e) = forget-eq _ h in
      tier_step s s' (Frames.claim_payout_tier-frame token registry c k tier who amt s w e) i
        (claim_payout_tier_lem token c k tier who amt s w i.tiers e).2
  perform-IsSolid c (PoolCall.set_staking_token signers addr) s w {s'} i h =
      let (money, admin) = Frames.set_staking_token-frame c signers s addr (alone-eq w _ h) in
      settings_step s s' money i (keep-IsGoverned s s' admin i.governed)
  perform-IsSolid c (PoolCall.set_payout_caller signers addr) s w {s'} i h =
      let (money, admin) = Frames.set_payout_caller-frame c signers s addr (alone-eq w _ h) in
      settings_step s s' money i (keep-IsGoverned s s' admin i.governed)
  perform-IsSolid c (PoolCall.set_registry signers addr) s w {s'} i h =
      let (money, admin) = Frames.set_registry-frame c signers s addr (alone-eq w _ h) in
      settings_step s s' money i (keep-IsGoverned s s' admin i.governed)
  perform-IsSolid c (PoolCall.set_yield_rate signers rate) s w {s'} i h =
      let (money, admin) = Frames.set_yield_rate-frame c signers s rate (alone-eq w _ h) in
      settings_step s s' money i (keep-IsGoverned s s' admin i.governed)
  perform-IsSolid c (PoolCall.administer signers call) s w {s'} i h =
      let (money, administered) = Frames.administer_pool-frame c signers s call (alone-eq w _ h) in
      settings_step s s' money i
        (administer-IsGoverned c signers call s.store i.governed administered)

  after-IsSolid :
      (c : Invocation) (call : PoolCall) (state : Insurance × W)
      → IsSolid state.0
      → IsSolid (after (perform token registry c call state.0 state.1) state).0
  after-IsSolid c call state i =
      elim (Result-cases (perform token registry c call state.0 state.1)) [
        | inr (e, trapped) ↦ rw trapped i
        | inl (next, done) ↦ rw done (perform-IsSolid c call state.0 state.1 i done)
      ]

  run-IsSolid :
      (calls : List (Invocation × PoolCall)) (state : Insurance × W)
      → IsSolid state.0
      → IsSolid (run token registry calls state).0
  unfolding run
  run-IsSolid [] state i = i
  run-IsSolid ((c, call) ∷ rest) state i = run-IsSolid rest _ (after-IsSolid c call state i)

constructor-fields :
    (wasm : Hash) (admin token_addr : Address) (version : Text) {s : Insurance}
    → constructor wasm admin token_addr version ≡ ok s
    → (s.store.admcfg ≡ some (record { signers = admin ∷ []; threshold = 1 }))
      × ((s.stakes ≡ []) × (s.pooltot ≡ pos 0))
      × ((s.resrvd ≡ []) × (s.paid ≡ []) × (s.tot_out ≡ pos 0))
      × ((s.tstakes ≡ []) × (s.pools ≡ []))
unfolding constructor init_admin_config initialize_contract_version
constructor-fields wasm admin token_addr version h =
    elim (Result-cases (parse_semantic_version version)) [
      | inr (e, bad) ↦ absurd (ground arith)
      | inl (v, parsed) ↦ ground arith
    ]

constructor-IsSolid :
    (wasm : Hash) (admin token_addr : Address) (version : Text) {s : Insurance}
    → constructor wasm admin token_addr version ≡ ok s
    → IsSolid s
unfolding load_tier_pool
constructor-IsSolid wasm admin token_addr version {s} h =
    let (admcfg, (stakes, total), (resrvd, paid, tot_out), (tstakes, pools)) =
      constructor-fields wasm admin token_addr version h in
    record {
      balanced = rw (stakes, total) refl;
      owed = [];
      reserved =
          (rw tot_out refl, tt, λ k. (rw (resrvd, paid) (add_nothing), rw paid (omega arith)));
      tiers = λ tier. rw (tstakes, pools) refl;
      governed = record {
        cfg = record { signers = admin ∷ []; threshold = 1 };
        stored = admcfg;
        formed = one_signer admin;
      };
    }
  where
    add_nothing : pos 0 ≡ pos 0 +ℤ pos 0
    add_nothing = omega int_laws

module _ {W : Type 0} (token : Token W) (registry : RegistryClient W) where
  -- From its deployment on, whatever entry points are called, in whatever order, by whomever and on
  -- whatever token and registry, with the calls that trap undone: the pool's total is the sum of the
  -- stakes, each tier's balance is the sum of the stakes in it, some ledger of non-negative debts
  -- accounts for the reservations, and the signer set is well-formed.
  pub run-IsSolid_from_constructor :
      (wasm : Hash) (admin token_addr : Address) (version : Text) {s : Insurance} (w : W)
      (calls : List (Invocation × PoolCall))
      → constructor wasm admin token_addr version ≡ ok s
      → IsSolid (run token registry calls (s, w)).0
  run-IsSolid_from_constructor wasm admin token_addr version {s} w calls h =
      run-IsSolid token registry calls (s, w) (constructor-IsSolid wasm admin token_addr version h)
