-- ===== src/Sched/Changes.antt =====
-- Sources come to a balanced scheduler and leave it: hmlib/src/hm_sched.c.
use hm_platform.Base.{
  ℕ, ◌+◌, ◌^◌, ◌<◌, ◌≤◌, ◌≡◌, refl, sym, ◌∙◌, subst, ap, List, ◌∷◌, some, ◌==◌, arith, length,
  Bool-cases, inl, inr, true, false,
}
use hm_platform.Sched.{
  EventLoops, Loop, LoopScher, SrcWeight, find_sw, delete_sw, loop_add_source, loop_del_source,
  find_best_loop, sched_add, sched_remove, add32, sub32,
}
use hm_platform.Sched.Weights.{
  sum_of, weight_at, weight_at-le-sum_loops, with_loop_lem, sum_of-delete_sw,
}
use hm_platform.Sched.Balance.{
  IsBalanced, Within, Within-find_sw, Within-delete_sw, add32_exact, sub32_exact,
  find_best_loop_lem,
}

module _ (e : EventLoops) where
  open e use {EventLoop, new_loop, attach, remove}

  -- The scheduler after a source was added.
  pub record Added (s : LoopScher e) (src weight : ℕ) : Type 0 where
    pub after : LoopScher e
    pub eq : sched_add e s src weight ≡ some after
    pub balanced : IsBalanced e after
    pub listed :
        after.w_list ≡ record { w = weight; src = src; loop = find_best_loop e s } ∷ s.w_list
    pub raised :
        weight_at e after.loops (find_best_loop e s)
        ≡ weight_at e s.loops (find_best_loop e s) + weight
    pub others :
        (j : ℕ)
        → (j == find_best_loop e s) ≡ false
        → weight_at e after.loops j ≡ weight_at e s.loops j
    pub least :
        (j : ℕ)
        → j < length s.loops
        → weight_at e s.loops (find_best_loop e s) ≤ weight_at e s.loops j

  abbrev pub Attaches : ℕ → Type 0
  Attaches src = (l : EventLoop) → (l' : EventLoop) × attach l src ≡ some l'

  loop_add_source_lem :
      (src weight : ℕ)
      → Attaches src
      → (l : Loop e)
      → (l' : Loop e) × loop_add_source e l src weight ≡ some l' × l'.weight ≡ add32 l.weight weight
  unfolding loop_add_source
  loop_add_source_lem src weight attaches l =
      let (ev, h) = attaches l.loop in
      (record { weight = add32 l.weight weight; loop = ev }, ground (arith, h), refl)

  -- A balanced scheduler with a loop takes a source that its event loop can attach, of a weight that
  -- keeps the total within 32 bits: the loop that gets it had the least weight of all, its weight
  -- grows by the source's and the others' stay, and the scheduler stays balanced.
  pub sched_add_lem :
      (s : LoopScher e) (src weight : ℕ)
      → IsBalanced e s
      → 0 < length s.loops
      → s.total_weight + weight < 2 ^ 32
      → Attaches src
      → Added s src weight
  unfolding sched_add
  sched_add_lem s src weight good some_loop small attaches =
      let best = find_best_loop_lem e s good some_loop in
      let r =
        with_loop_lem e s.loops (find_best_loop e s) (λ l. loop_add_source e l src weight)
          (λ w. add32 w weight) (loop_add_source_lem src weight attaches) best.0 in
      let exact =
        add32_exact (weight_at e s.loops (find_best_loop e s)) weight (
          omega
            (arith, small, good.total, weight_at-le-sum_loops e s.loops (find_best_loop e s))) in
      let total_exact = add32_exact s.total_weight weight small in
      record {
        after = record {
          loops = r.after;
          total_weight = add32 s.total_weight weight;
          w_list = record { w = weight; src = src; loop = find_best_loop e s } ∷ s.w_list;
        };
        eq = ground (arith, r.eq);
        balanced = record {
          total = omega (arith, total_exact, exact, r.changed.sum, good.total);
          small = omega (arith, total_exact, small);
          each = λ i.
              ground
                (arith, r.changed.at_index i, good.each i, exact, good.each (find_best_loop e s));
          within =
              subst
                (λ n.
                  Within n (record { w = weight; src = src; loop = find_best_loop e s } ∷ s.w_list))
                (sym r.changed.length_same) (best.0, good.within);
        };
        listed = refl;
        raised = ground (arith, r.changed.at_index (find_best_loop e s), exact);
        others = λ j ne. ground (arith, ne, r.changed.at_index j);
        least = best.1;
      }

  abbrev pub Detaches : ℕ → Type 0
  Detaches src = (l : EventLoop) → (l' : EventLoop) × remove l src ≡ some l'

  loop_del_source_lem :
      (src weight : ℕ)
      → Detaches src
      → (l : Loop e)
      → (l' : Loop e) × loop_del_source e l src weight ≡ some l' × l'.weight ≡ sub32 l.weight weight
  unfolding loop_del_source
  loop_del_source_lem src weight detaches l =
      let (ev, h) = detaches l.loop in
      (record { weight = sub32 l.weight weight; loop = ev }, ground (arith, h), refl)

  -- The scheduler after a source's entry was removed.
  pub record Removed (s : LoopScher e) (src : ℕ) (sw : SrcWeight) : Type 0 where
    pub after : LoopScher e
    pub eq : sched_remove e s src ≡ some (true, after)
    pub balanced : IsBalanced e after
    pub listed : after.w_list ≡ delete_sw src s.w_list
    pub lowered : weight_at e after.loops sw.loop + sw.w ≡ weight_at e s.loops sw.loop
    pub others :
        (j : ℕ) → (j == sw.loop) ≡ false → weight_at e after.loops j ≡ weight_at e s.loops j

  -- The entry's weight is within its loop's.
  entry_le :
      (s : LoopScher e) (src : ℕ) (sw : SrcWeight)
      → IsBalanced e s
      → find_sw src s.w_list ≡ some sw
      → sum_of sw.loop (delete_sw src s.w_list) + sw.w ≡ weight_at e s.loops sw.loop
  entry_le s src sw good h =
      ground (arith, sum_of-delete_sw sw.loop src s.w_list sw h, good.each sw.loop)

  -- A balanced scheduler lets go of a source that it lists and that the event loop can detach: the
  -- first entry of the source leaves the list, its weight leaves its loop and no other, and the
  -- scheduler stays balanced.
  pub sched_remove_found :
      (s : LoopScher e) (src : ℕ) (sw : SrcWeight)
      → IsBalanced e s
      → find_sw src s.w_list ≡ some sw
      → Detaches src
      → Removed s src sw
  unfolding sched_remove
  sched_remove_found s src sw good h detaches =
      let le = entry_le s src sw good h in
      let under = weight_at-le-sum_loops e s.loops sw.loop in
      let r =
        with_loop_lem e s.loops sw.loop (λ l. loop_del_source e l src sw.w) (λ w. sub32 w sw.w)
          (loop_del_source_lem src sw.w detaches)
          (Within-find_sw (length s.loops) src s.w_list sw good.within h) in
      let exact =
        sub32_exact (weight_at e s.loops sw.loop) sw.w (omega (arith, le))
          (omega (arith, under, good.total, good.small)) in
      let total_exact =
        sub32_exact s.total_weight sw.w (omega (arith, le, under, good.total)) good.small in
      record {
        after = record {
          loops = r.after;
          total_weight = sub32 s.total_weight sw.w;
          w_list = delete_sw src s.w_list;
        };
        eq = ground (arith, h, r.eq);
        balanced = record {
          total = omega (arith, total_exact, exact, r.changed.sum, good.total, le, under);
          small = omega (arith, total_exact, good.small);
          each = λ i. ground (
            arith,
            r.changed.at_index i,
            good.each i,
            exact,
            le,
            sum_of-delete_sw i src s.w_list sw h,
          );
          within =
              subst (λ n. Within n (delete_sw src s.w_list)) (sym r.changed.length_same)
                (Within-delete_sw (length s.loops) src s.w_list good.within);
        };
        listed = refl;
        lowered = ground (arith, r.changed.at_index sw.loop, exact, le);
        others = λ j ne. ground (arith, ne, r.changed.at_index j);
      }

  -- The first entry is the one just added.
  first_found :
      (src weight loop : ℕ) (l : List SrcWeight)
      → find_sw src (record { w = weight; src = src; loop = loop } ∷ l)
        ≡ some (record { w = weight; src = src; loop = loop })
  unfolding find_sw
  first_found src weight loop l = ground arith

  first_deleted :
      (src weight loop : ℕ) (l : List SrcWeight)
      → delete_sw src (record { w = weight; src = src; loop = loop } ∷ l) ≡ l
  unfolding delete_sw
  first_deleted src weight loop l = ground arith

  -- The scheduler after a source was added and removed again.
  pub record GivenBack (s : LoopScher e) (src weight : ℕ) : Type 0 where
    pub between : LoopScher e
    pub after : LoopScher e
    pub added : sched_add e s src weight ≡ some between
    pub removed : sched_remove e between src ≡ some (true, after)
    pub weights : (j : ℕ) → weight_at e after.loops j ≡ weight_at e s.loops j
    pub entries : after.w_list ≡ s.w_list

  -- A source that a balanced scheduler with a loop takes, where the event loop can attach and detach
  -- it and the total stays within 32 bits, can be removed, which gives back every loop's weight and
  -- the entries from before.
  pub sched_remove-sched_add :
      (s : LoopScher e) (src weight : ℕ)
      → IsBalanced e s
      → 0 < length s.loops
      → s.total_weight + weight < 2 ^ 32
      → Attaches src
      → Detaches src
      → GivenBack s src weight
  sched_remove-sched_add s src weight good some_loop small attaches detaches =
      let best = find_best_loop e s in
      let sw : SrcWeight = record { w = weight; src = src; loop = best } in
      let a = sched_add_lem s src weight good some_loop small attaches in
      let r =
        sched_remove_found a.after src sw a.balanced
          (ap (find_sw src) a.listed ∙ first_found src weight best s.w_list) detaches in
      record {
        between = a.after;
        after = r.after;
        added = a.eq;
        removed = r.eq;
        weights = λ j. elim (Bool-cases (j == best)) [
          | inl same ↦ ground (arith, same, r.lowered, a.raised)
          | inr other ↦ ground (arith, r.others j other, a.others j other)
        ];
        entries = r.listed ∙ ap (delete_sw src) a.listed ∙ first_deleted src weight best s.w_list;
      }
