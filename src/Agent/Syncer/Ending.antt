-- ===== src/Agent/Syncer/Ending.antt =====
-- The poll loop ends, by what is documented of the context and the timer.
use secret_control_panel.Base.{
  Bool-cases, is_some, ◌==◌, nat_eq, Result, ok, err, ℕ, zero, suc, ◌+◌, ◌*◌, ◌≤◌, ◌≡◌, refl, sym,
  ap, ◌∙◌, inl, inr, Bool, true, false, false≢true, Option, none, some, [], arith,
}
use secret_control_panel.Text.{Str, str_eq}
use secret_control_panel.Wire.{Time, SecretEvent}
use secret_control_panel.VaultPath.{join}
use secret_control_panel.Agent.Syncer.{
  Watcher, poll_interval, poll_timeout, all_synced, poll_until_synced, watch,
}

-- A call of the API takes no negative time; the timer is first only while the context is not done,
-- and then its interval has passed.
pub record IsTimed {S : Type 0} (w : Watcher S) (deadline : Time) : Type 0 where
  pub listing : (s : S) → w.k8s.now s ≤ w.k8s.now (w.k8s.list s).1
  pub fired : (s : S) → (w.wait s).0 ≡ true → w.k8s.now s + poll_interval ≤ w.k8s.now (w.wait s).1
  pub expired : (s : S) → deadline ≤ w.k8s.now s → (w.wait s).0 ≡ false

module _ {S : Type 0} (w : Watcher S) (vault_path : Str) (patched_at : Time) where
  all_synced-state : (s : S) → (all_synced w vault_path patched_at s).1 ≡ (w.k8s.list s).1
  all_synced-state s = by_list (w.k8s.list s).0 refl
    where
      by_list :
          (o : Result Str _)
          → (w.k8s.list s).0 ≡ o
          → (all_synced w vault_path patched_at s).1 ≡ (w.k8s.list s).1
      by_list (err e) h = unfold all_synced in rw (h, all_synced) refl
      by_list (ok items) h = unfold all_synced in rw (h, all_synced) refl

  all_synced-clock :
      {deadline : Time}
      → IsTimed w deadline
      → (s : S) → w.k8s.now s ≤ w.k8s.now (all_synced w vault_path patched_at s).1
  all_synced-clock timed s = rw (all_synced-state s) (timed.listing s)

  poll-step :
      (fuel : ℕ) (s : S)
      → ((w.wait (all_synced w vault_path patched_at s).1).0 ≡ true
          → is_some
              (poll_until_synced w fuel vault_path patched_at
                (w.wait (all_synced w vault_path patched_at s).1).1).0
            ≡ true)
      → is_some (poll_until_synced w (suc fuel) vault_path patched_at s).0 ≡ true
  poll-step fuel s later =
      by_test (all_synced w vault_path patched_at s).0
        (w.wait (all_synced w vault_path patched_at s).1).0 refl refl
    where
      by_test :
          (b timer : Bool)
          → (all_synced w vault_path patched_at s).0 ≡ b
          → (w.wait (all_synced w vault_path patched_at s).1).0 ≡ timer
          → is_some (poll_until_synced w (suc fuel) vault_path patched_at s).0 ≡ true
      by_test true timer e k = unfold poll_until_synced in rw (e, poll_until_synced) refl
      by_test false true e k = unfold poll_until_synced in rw (e, poll_until_synced, k) (later k)
      by_test false false e k = unfold poll_until_synced in rw (e, poll_until_synced, k) refl

  -- Fuel for the rounds that fit before the deadline, and one more.
  poll-total :
      (deadline fuel : ℕ) (s : S)
      → IsTimed w deadline
      → deadline ≤ w.k8s.now s + fuel * poll_interval
      → is_some (poll_until_synced w (suc fuel) vault_path patched_at s).0 ≡ true
  poll-total deadline zero s timed h = poll-step zero s (λ fires.
      let clock = all_synced-clock timed s in
      let done = timed.expired (all_synced w vault_path patched_at s).1 (omega arith) in
      absurd (false≢true (sym done ∙ fires)))
  poll-total deadline (suc fuel) s timed h = poll-step (suc fuel) s (λ fires.
      let clock = all_synced-clock timed s in
      let passed = timed.fired (all_synced w vault_path patched_at s).1 fires in
      poll-total deadline fuel (w.wait (all_synced w vault_path patched_at s).1).1 timed
        (omega arith))

-- The watcher ends with a callback: 16 looks at the cluster are enough, since the context of `watch`
-- is done after 30 seconds and the looks are 2 seconds apart. It assumes that a call of the API takes
-- no negative time, that the timer is first only when its interval has passed, and that a context
-- that is already done is chosen.
pub watch-total :
    {S : Type 0} (w : Watcher S) (ev : SecretEvent) (matched patched : ℕ) (patched_at : Time)
    (s : S)
    → IsTimed w (w.k8s.now s + poll_timeout)
    → is_some (watch w 16 ev matched patched patched_at s).0 ≡ true
watch-total {S} w ev matched patched patched_at s timed =
    by_poll (poll_until_synced w 16 path patched_at s).0 refl
  where
    path : Str
    path = join ev.mount ev.path

    ends : is_some (poll_until_synced w 16 path patched_at s).0 ≡ true
    ends = poll-total w path patched_at (w.k8s.now s + poll_timeout) 15 s timed (omega arith)

    by_poll :
        (o : Option Bool)
        → (poll_until_synced w 16 path patched_at s).0 ≡ o
        → is_some (watch w 16 ev matched patched patched_at s).0 ≡ true
    by_poll none e = absurd (false≢true (sym (ap is_some e) ∙ ends))
    by_poll (some synced) e = elim (Bool-cases (w.panel_url == [])) [
      | inl f ↦ unfold watch in rw (e, watch, f) refl
      | inr f ↦ unfold watch in rw (e, watch, f) refl
    ]
