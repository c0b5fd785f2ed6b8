-- ===== src/Daemon/Dispatcher/Progress.antt =====
-- One event on its way to its agent, where neither the database nor the agents fail.
use secret_control_panel.Base.{
  Bool-cases, ◌==◌, nat_eq, eq_iff, ne_of_beq, length, All, All-mem, All-of-mem, Pairs, ℕ, suc, ◌≤◌,
  ◌<◌, ◌≡◌, refl, sym, ap, subst, ◌∙◌, ◌≢◌, ◌⊎◌, inl, inr, some, List, [], ◌∷◌, ◌++◌, Memᴰ, arith,
}
use secret_control_panel.Text.{Str, trim_right}
use secret_control_panel.Wire.{SecretEvent, events_path, auth_scheme}
use secret_control_panel.Db.{Db, EventRow, pending, dispatched}
use secret_control_panel.Db.World.{World, Answer, Post}
use secret_control_panel.Db.Smooth.{Smooth}
use secret_control_panel.Daemon.Store.{
  PendingEvent, scan_event, agent_of, update_event, set_dispatched,
}
use secret_control_panel.Daemon.Dispatcher.{dispatch_one}
use secret_control_panel.Daemon.Dispatcher.Rows.{Moved, fails, delivers, dispatch_one-Moved}
use secret_control_panel.Daemon.Dispatcher.Ready.{UniqueEvents, ids, IsReady, All-update, Tried-ids}
use secret_control_panel.Daemon.Dispatcher.Rounds.{all_rounds, Moved-lt}
use secret_control_panel.Daemon.Dispatcher.Unaltered.{IsRow, found_id}
use secret_control_panel.Daemon.Dispatcher.Serving.{
  IsSuccess, IsRestOf, dispatch_one-Sends, dispatch_one-Served,
}

rest-length : (a b : List Answer) → IsRestOf a b → length a ≤ suc (length b)
rest-length a b (inl e) = rw e (omega arith)
rest-length [] b (inr e) = omega arith
rest-length (x ∷ a) b (inr e) = rw e (omega arith)

rest-successes : (a b : List Answer) → IsRestOf a b → All IsSuccess a → All IsSuccess b
rest-successes a b (inl e) h = subst (All IsSuccess) (sym e) h
rest-successes [] b (inr e) h = subst (All IsSuccess) (sym e) tt
rest-successes (x ∷ a) b (inr e) h = subst (All IsSuccess) (sym e) h.1

-- One event: its id, its cluster, what it says, and the agent that is registered for the cluster.
module _ (i : ℕ) (c url token : Str) (secret : SecretEvent) where
  -- The request that is due to the agent.
  abbrev pub request : Post
  request = record {
    url = trim_right url b'/' ++ events_path;
    authorization = auth_scheme ++ token;
    event = secret;
  }

  -- Where it is the event's row, it still waits, or it is dispatched and its request has arrived.
  abbrev pub IsServed : List Post → EventRow → Type 0
  IsServed posts e =
      e.id ≡ i
      → (e.cluster ≡ c)
        × ((scan_event e).event ≡ secret)
        × ((e.status ≡ pending) ⊎ ((e.status ≡ dispatched) × Memᴰ request posts))

  pub record Serving (w : World) : Type 0 where
    pub smooth : Smooth w
    pub unique : UniqueEvents w.db.events
    pub successes : All IsSuccess w.answers
    pub enough : all_rounds w.db.events ≤ length w.answers
    pub registered : agent_of c w.db.agents ≡ some (url, token)
    pub there : Memᴰ i (ids w.db.events)
    pub served : All (IsServed w.posts) w.db.events

  IsServed-more :
      (p q : List Post) (e : EventRow)
      → ((x : Post) → Memᴰ x p → Memᴰ x q)
      → IsServed p e
      → IsServed q e
  IsServed-more p q e kept h same =
      let (in_c, says, state) = h same in
      (in_c, says, elim state [ inl k ↦ inl k | inr (k, m) ↦ inr (k, kept request m) ])

  module _ (ev : PendingEvent) (w : World) (h : Serving w) where
    abbrev w' : World
    w' = (dispatch_one ev w).1

    -- The dispatch of another event.
    other-served : ev.id ≢ i → Moved ev w.db w'.db → All (IsServed w'.posts) w'.db.events
    other-served other moved = by_move moved
      where
        open (dispatch_one-Sends ev w) use {kept}

        untouched :
            (f : EventRow → EventRow)
            → ((e : EventRow) → (f e).id ≡ e.id)
            → All (IsServed w'.posts) (update_event ev.id f w.db.events)
        untouched f keep = All-update ev.id f (IsServed w'.posts) w.db.events (
            All-of-mem _ w.db.events (λ r m. (
              λ hit same. absurd (other (sym hit ∙ sym (keep r) ∙ same)),
              λ miss. IsServed-more w.posts w'.posts r kept (All-mem _ h.served m),
            )))

        by_move : Moved ev w.db w'.db → All (IsServed w'.posts) w'.db.events
        by_move (fails next e) =
            subst (λ (d : Db). All (IsServed w'.posts) d.events) (sym e) (untouched _ (λ r. refl))
        by_move (delivers now e) =
            subst (λ (d : Db). All (IsServed w'.posts) d.events) (sym e) (untouched _ (λ r. refl))

    -- The dispatch of the event itself.
    own-served :
        ev.id ≡ i
        → IsRow w.db.events ev
        → 0 < length w.answers
        → All (IsServed w'.posts) w'.db.events
    own-served own row some_left = by_answers w.answers refl some_left h.successes
      where
        at_row : (ev.cluster ≡ c) × (ev.event ≡ secret)
        at_row =
            let (r, m, same) = found_id i w.db.events h.there in
            let (in_c, says) = All-mem _ row m (same ∙ sym own) in
            let (is_c, is_secret, state) = All-mem _ h.served m same in
            (sym in_c ∙ is_c, sym says ∙ is_secret)

        by_answers :
            (as' : List Answer)
            → w.answers ≡ as'
            → 0 < length as'
            → All IsSuccess as'
            → All (IsServed w'.posts) w'.db.events
        by_answers [] e l good = absurd (omega arith)
        by_answers (a ∷ rest) e l good =
            let (in_c, says) = at_row in
            let done =
              dispatch_one-Served ev url token a rest w h.smooth
                (ap (λ k. agent_of k w.db.agents) in_c ∙ h.registered) e good.0 in
            let arrived : Memᴰ request w'.posts =
              subst (λ s. Memᴰ (record request { event = s }) w'.posts) says done.arrived in
            subst (λ (d : Db). All (IsServed w'.posts) d.events) (sym done.moved)
              (All-update ev.id (set_dispatched done.now) (IsServed w'.posts) w.db.events (
                All-of-mem _ w.db.events (λ r m. (
                  λ hit same.
                      let (is_c, is_secret, state) = All-mem _ h.served m same in
                      (is_c, is_secret, inr (refl, arrived)),
                  λ miss same. absurd (miss (same ∙ sym own)),
                ))))

    pub dispatch_one-Serving :
        IsReady w.db.events ev → IsRow w.db.events ev → Memᴰ ev.id (ids w.db.events) → Serving w'
    dispatch_one-Serving ready row known =
        let (moved, s') = dispatch_one-Moved ev w h.smooth in
        let sends = dispatch_one-Sends ev w in
        let (r, m, same) = found_id ev.id w.db.events known in
        let less = Moved-lt ev w.db w'.db moved ready m same in
        let same_ids = Tried-ids ev w.db w'.db (inr moved) in
        record {
          smooth = s';
          unique = subst (Pairs ◌≢◌) (sym same_ids) h.unique;
          successes = rest-successes w.answers w'.answers sends.used h.successes;
          enough = omega (arith, less, h.enough, rest-length w.answers w'.answers sends.used);
          registered = ap (agent_of c) sends.same_agents ∙ h.registered;
          there = subst (Memᴰ i) (sym same_ids) h.there;
          served = elim (Bool-cases (ev.id == i)) [
            | inl e ↦ own-served ((eq_iff ev.id i).0 e) row (omega (arith, less, h.enough))
            | inr e ↦ other-served (ne_of_beq ev.id i e) moved
          ];
        }
