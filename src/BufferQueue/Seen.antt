-- ===== src/BufferQueue/Seen.antt =====
-- A consumer has seen its element: hmrtspsvr/src/utils/bufferqueue.c.
use hm_platform.Base.{
  ℕ, zero, suc, ◌+◌, ◌^◌, ◌<◌, ◌≤◌, ◌≡◌, sym, ap, subst, List, [], ◌∷◌, none, some, false, arith,
  ◌⊎◌, inl, inr, dec_lt, set,
}
use hm_platform.BufferQueue.{
  Element, Producer, Consumer, find_elem, bump, tail_of, elem_done, elem_seen, consumer_elem_unref,
}
use hm_platform.BufferQueue.Passed.{
  live, past, alive, passed, consumer_at, passed-antitone, passed-lt-alive,
}
use hm_platform.BufferQueue.Links.{Consec, Counted, find_elem_lem, head_of_lem}
use hm_platform.BufferQueue.Sound.{Placed, AllPlaced}

-- Changes of the list of consumers.
consumer_at-set :
    (cs : List Consumer) (i j : ℕ) (c d : Consumer)
    → consumer_at (set cs i c) j ≡ some d
    → (d ≡ c) ⊎ (consumer_at cs j ≡ some d)
consumer_at-set [] i j c d h = inr h
consumer_at-set (x ∷ cs) zero zero c d h = inl (ground (arith, h))
consumer_at-set (x ∷ cs) zero (suc j) c d h = inr h
consumer_at-set (x ∷ cs) (suc i) zero c d h = inr h
consumer_at-set (x ∷ cs) (suc i) (suc j) c d h = consumer_at-set cs i j c d h

pub AllPlaced-set :
    (first next qs : ℕ) (cs : List Consumer) (i : ℕ) (c : Consumer)
    → AllPlaced first next qs cs
    → Placed first next qs c
    → AllPlaced first next qs (set cs i c)
AllPlaced-set first next qs cs i c all here j d h = elim (consumer_at-set cs i j c d h) [
  | inl same ↦ subst (Placed first next qs) (sym same) here
  | inr old ↦ all j d old
]

-- Where all consumers have passed the elements below `first'`, none is at one of them.
pub AllPlaced-raise :
    (first first' next qs : ℕ) (cs : List Consumer)
    → AllPlaced first next qs cs
    → ((t : ℕ) → first ≤ t → t < first' → alive cs ≤ passed qs cs t)
    → AllPlaced first' next qs cs
AllPlaced-raise first first' next qs cs all gone i c h = record {
  same = (all i c h).same;
  older = (all i c h).older;
  inside = λ s alive_still now at. raised s alive_still now at;
}
  where
    raised :
        (s : ℕ)
        → c.killed ≡ false
        → c.queue_serial ≡ qs
        → c.current_element_pointer ≡ some s
        → (first' ≤ s) × (s < next)
    raised s alive_still now at =
        let inside = (all i c h).inside s alive_still now at in
        elim (dec_lt s first') [
          | yes below ↦
              let here : past qs s c < live c = ground (arith, alive_still, now, at) in
              absurd (omega (arith, gone s inside.0 below, passed-lt-alive qs s cs i c h here))
          | no above ↦ (omega (arith, above), inside.1)
        ]

-- A consumer at `s` has passed what is before.
pub passed_strict :
    (qs t s : ℕ) (cs : List Consumer) (i : ℕ) (c : Consumer)
    → consumer_at cs i ≡ some c
    → past qs t c ≡ 1
    → past qs s c ≡ 0
    → t ≤ s
    → passed qs cs s < passed qs cs t
unfolding passed
passed_strict qs t s [] i c h before at le = absurd (ground (arith, h))
passed_strict qs t s (d ∷ cs) zero c h before at le =
    let same : d ≡ c = ground (arith, h) in
    omega
      (arith, ap (past qs t) same, ap (past qs s) same, before, at, passed-antitone qs cs t s le)
passed_strict qs t s (d ∷ cs) (suc i) c h before at le =
    omega (arith, passed-antitone qs (d ∷ []) t s le, passed_strict qs t s cs i c h before at le)

head_only : (s first : ℕ) → first ≤ s → ¬ (first < s) → s ≡ first
head_only s first from not_behind = omega (arith, from, not_behind)

-- What `consumer_elem_unref` does for a consumer at the element `s`.
pub record Unreffed (p : Producer) (c : Consumer) (s first : ℕ) (f : ℕ → ℕ) : Type 0 where
  pub elem : Element
  pub found : find_elem s p.queue ≡ some elem
  pub outcome :
      ((f s + 1 < p.consumers)
        × consumer_elem_unref p c ≡ some (record p { queue = bump s p.queue }, c))
      ⊎ ((f s + 1 ≡ p.consumers)
          × (s ≡ first)
          × consumer_elem_unref p c
            ≡ some (
              record p { min_serial = s; freed = elem.payload ∷ p.freed; queue = tail_of p.queue },
              record c { current_element_object = none; current_element_pointer = none },
            ))

pub consumer_elem_unref_lem :
    (p : Producer) (c : Consumer) (s first : ℕ) (f : ℕ → ℕ)
    → Consec first p.queue p.next_serial
    → Counted f p.queue
    → first ≤ s
    → s < p.next_serial
    → ((t : ℕ) → first ≤ t → f t < p.consumers)
    → ((t : ℕ) → t < s → f s < f t)
    → p.consumers < 2 ^ 64
    → c.queue_serial ≡ p.queue_serial
    → c.current_element_pointer ≡ some s
    → c.current_element_object ≡ some s
    → Unreffed p c s first f
unfolding consumer_elem_unref elem_seen elem_done
consumer_elem_unref_lem p c s first f run counted from to open_still strict few now at_pointer
      at_object =
    let (elem, found, serial, seen) =
      find_elem_lem s first p.next_serial f p.queue run counted from to in
    elim (dec_lt (f s + 1) p.consumers) [
      | yes more ↦ record {
        elem = elem;
        found = found;
        outcome = inl (more, ground (arith, at_object, now, found, seen, more, few));
      }
      | no last ↦
          let at_head : s ≡ first =
            head_only s first from
              (λ less. omega (arith, open_still first (omega arith), strict first less, last)) in
          let head = head_of_lem first p.next_serial p.queue run (omega (arith, from, to)) in
          record {
            elem = elem;
            found = found;
            outcome = inr (
              omega (arith, last, open_still s from),
              at_head,
              ground (
                arith,
                at_object,
                at_pointer,
                now,
                found,
                seen,
                serial,
                last,
                few,
                head,
                at_head,
                open_still s from,
              ),
            );
          }
    ]
