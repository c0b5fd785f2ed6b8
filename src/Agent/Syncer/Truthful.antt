-- ===== src/Agent/Syncer/Truthful.antt =====
-- A callback says "synced" only of what the cluster has shown.
use native.Mathlib.Nat.{zero-add}
use secret_control_panel.Base.{
  ltb, Bool-cases, ◌==◌, nat_eq, length, filter, All, length-filter-le, Result, ok, err, ℕ, zero,
  suc, ◌+◌, ◌-◌, ◌<◌, ◌≡◌, refl, sym, ap, subst, ◌∙◌, ◌⊎◌, inl, inr, Bool, true, false, false≢true,
  ◌&&◌, Option, none, some, List, [], ◌∷◌, arith,
}
use secret_control_panel.Text.{Str, str_eq}
use secret_control_panel.Wire.{Time, SecretEvent, Callback}
use secret_control_panel.VaultPath.{join}
use secret_control_panel.Agent.Patcher.{Resource}
use secret_control_panel.Agent.Syncer.{
  Watcher, is_watched, is_refreshed, count_synced, all_synced, poll_until_synced, callback_for,
  watch,
}

module _ {S : Type 0} (w : Watcher S) (vault_path : Str) (patched_at : Time) where
  abbrev watched_in : List Resource → List Resource
  watched_in = filter (is_watched vault_path)

  -- Each of the resources has been refreshed.
  abbrev pub AllRefreshed : List Resource → Type 0
  AllRefreshed = All (λ item. is_refreshed w.parse_time patched_at item ≡ true)

  abbrev refreshed : List Resource → ℕ
  refreshed items = length (filter (is_refreshed w.parse_time patched_at) items)

  count_synced_lem :
      (items : List Resource) (m n : ℕ)
      → count_synced w vault_path patched_at items m n
        ≡ (m + length (watched_in items), n + refreshed (watched_in items))
  unfolding count_synced
  count_synced_lem [] m n = ground arith
  count_synced_lem (item ∷ items) m n = elim (Bool-cases (is_watched vault_path item)) [
    | inr h ↦ rw (h, count_synced) (count_synced_lem items m n)
    | inl h ↦ elim (Bool-cases (is_refreshed w.parse_time patched_at item)) [
      | inl k ↦ rw (h, count_synced, k) (count_synced_lem items (suc m) (suc n) ∙ ground arith)
      | inr k ↦ rw (h, count_synced, k) (count_synced_lem items (suc m) n ∙ ground arith)
    ]
  ]

  all_refreshed : (items : List Resource) → refreshed items ≡ length items → AllRefreshed items
  all_refreshed [] e = tt
  all_refreshed (item ∷ items) e = elim (Bool-cases (is_refreshed w.parse_time patched_at item)) [
    | inl k ↦ (k, all_refreshed items (ground arith))
    | inr k ↦
        absurd
          (let few = length-filter-le (is_refreshed w.parse_time patched_at) items in ground arith)
  ]

  -- At some moment the API listed resources of the path, at least one, and all of them refreshed.
  pub record Confirmed : Type 0 where
    pub moment : S
    pub items : List Resource
    pub listed : (w.k8s.list moment).0 ≡ ok items
    pub some_watched : 0 < length (watched_in items)
    pub refreshed_all : AllRefreshed (watched_in items)

  all_synced-err :
      (s : S) {e : Str}
      → (w.k8s.list s).0 ≡ err e
      → (all_synced w vault_path patched_at s).0 ≡ false
  unfolding all_synced
  all_synced-err s h = rw (h, all_synced)

  all_synced-listed :
      (s : S) (items : List Resource)
      → (w.k8s.list s).0 ≡ ok items
      → (all_synced w vault_path patched_at s).0 ≡ (
          ltb 0 (length (watched_in items))
          && refreshed (watched_in items) == length (watched_in items))
  unfolding all_synced
  all_synced-listed s items h =
      rw (h, all_synced) (ap (λ (q : ℕ × ℕ). ltb 0 q.0 && q.1 == q.0) counted)
    where
      counted :
          count_synced w vault_path patched_at items 0 0
          ≡ (length (watched_in items), refreshed (watched_in items))
      counted =
          count_synced_lem items 0 0
          ∙ rw (zero-add (length (watched_in items)), zero-add (refreshed (watched_in items))) refl

  all_synced-Confirmed : (s : S) → (all_synced w vault_path patched_at s).0 ≡ true → Confirmed
  all_synced-Confirmed s h = by_list (w.k8s.list s).0 refl
    where
      by_list : (o : Result Str (List Resource)) → (w.k8s.list s).0 ≡ o → Confirmed
      by_list (err e) k = absurd (false≢true (sym (all_synced-err s k) ∙ h))
      by_list (ok items) k =
          let both : (ltb 0 (length (watched_in items))
                && refreshed (watched_in items) == length (watched_in items))
              ≡ true =
            sym (all_synced-listed s items k) ∙ h in
          record {
            moment = s;
            items = items;
            listed = k;
            some_watched = ground arith;
            refreshed_all = all_refreshed (watched_in items) (ground arith);
          }

  poll-Confirmed :
      (fuel : ℕ) (s : S)
      → (poll_until_synced w fuel vault_path patched_at s).0 ≡ some true
      → Confirmed
  unfolding poll_until_synced
  poll-Confirmed zero s h = absurd (ground arith)
  poll-Confirmed (suc fuel) s h =
      by_test (all_synced w vault_path patched_at s).0 refl (poll-Confirmed fuel (w.wait s').1)
    where
      s' : S
      s' = (all_synced w vault_path patched_at s).1

      by_wait :
          (all_synced w vault_path patched_at s).0 ≡ false
          → (timer : Bool) → (w.wait s').0 ≡ timer
          → ((poll_until_synced w fuel vault_path patched_at (w.wait s').1).0 ≡ some true
              → Confirmed)
          → Confirmed
      by_wait e true k later = later (sym (ap (λ (q : Option Bool × S). q.0) (again e k)) ∙ h)
        where
          again :
              (all_synced w vault_path patched_at s).0 ≡ false
              → (w.wait s').0 ≡ true
              → poll_until_synced w (suc fuel) vault_path patched_at s
                ≡ poll_until_synced w fuel vault_path patched_at (w.wait s').1
          again e k = rw (e, poll_until_synced, k) refl
      by_wait e false k later = absurd (ground arith)

      by_test :
          (b : Bool)
          → (all_synced w vault_path patched_at s).0 ≡ b
          → ((poll_until_synced w fuel vault_path patched_at (w.wait s').1).0 ≡ some true
              → Confirmed)
          → Confirmed
      by_test true e later = all_synced-Confirmed s e
      by_test false e later = by_wait e (w.wait s').0 refl later

-- A callback that `watch` makes is about its event and the agent's own cluster, and it says "synced"
-- only if at some moment the API listed at least one resource of the event's path, and all of those
-- with a refresh time that is not before the second of the patch.
pub watch-Confirmed :
    {S : Type 0} (w : Watcher S) (fuel : ℕ) (ev : SecretEvent) (matched patched : ℕ)
    (patched_at : Time) (s : S) {cb : Callback} {sent : Bool}
    → (watch w fuel ev matched patched patched_at s).0 ≡ some (cb, sent)
    → (cb.request_id ≡ ev.request_id)
      × (cb.cluster ≡ w.cluster)
      × ((cb.synced ≡ false) ⊎ Confirmed w (join ev.mount ev.path) patched_at)
watch-Confirmed {S} w fuel ev matched patched patched_at s {cb} {sent} h =
    by_poll (poll_until_synced w fuel path patched_at s).0 refl
  where
    path : Str
    path = join ev.mount ev.path

    s' : S
    s' = (poll_until_synced w fuel path patched_at s).1

    Good : Callback → Type 0
    Good c =
        (c.request_id ≡ ev.request_id)
        × (c.cluster ≡ w.cluster)
        × ((c.synced ≡ false) ⊎ Confirmed w path patched_at)

    made : Bool → Callback
    made synced = callback_for w ev matched patched synced (w.k8s.now s' - w.k8s.now s)

    is_made :
        (synced : Bool)
        → (poll_until_synced w fuel path patched_at s).0 ≡ some synced
        → made synced ≡ cb
    is_made synced e = elim (Bool-cases (w.panel_url == [])) [
      | inl f ↦ unfold watch in ground arith
      | inr f ↦ unfold watch in ground arith
    ]

    by_poll : (o : Option Bool) → (poll_until_synced w fuel path patched_at s).0 ≡ o → Good cb
    by_poll none e = absurd (unfold watch in ground arith)
    by_poll (some true) e =
        subst Good (is_made true e) (refl, refl, inr (poll-Confirmed w path patched_at fuel s e))
    by_poll (some false) e = subst Good (is_made false e) (refl, refl, inl refl)
