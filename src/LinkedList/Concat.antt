-- ===== src/LinkedList/Concat.antt =====
-- `hm_list_concat` of hmlib/src/hm_list.c.
use hm_platform.Base.{sym, ap, [], ◌∷◌, ◌++◌, some, arith, append-nil, subst}
use hm_platform.LinkedList.{Heap, list_concat}
use hm_platform.LinkedList.Chain.{
  Items, first_of, last_of, IsList, Apart, Apart-sym, Chain-Outside, append-Distinct,
}
use hm_platform.LinkedList.Adds.{Made, list_last_lem}
use hm_platform.LinkedList.Cut.{Chain-join}
use hm_platform.LinkedList.Ends.{join_behind, last_of-positive, join_first}

-- `hm_list_concat` of two lists that share no link, either of which may be empty, returns a list of the
-- links of both, in order.
pub list_concat_lem :
    (h : Heap) (xs ys : Items)
    → IsList h xs
    → IsList h ys
    → Apart xs ys
    → Made h (xs ++ ys) (list_concat h (first_of xs 0) (first_of ys 0))
unfolding list_concat
list_concat_lem h xs [] list more apart = record {
  heap = h;
  eq = ap (λ l. some (first_of l 0, h)) (sym (append-nil xs));
  list = subst (IsList h) (sym (append-nil xs)) list;
}
list_concat_lem h [] (y ∷ ys) list more apart =
    let two = join_first h 0 0 (y ∷ ys) more.chain more.distinct in
    record {
      heap = two.heap;
      eq = ground (arith, more.chain.0.positive, list_last_lem h [] list, two.eq);
      list = record {
        chain = two.chain;
        distinct = more.distinct;
        started = ground (arith, more.started, two.fresh);
      };
    }
list_concat_lem h (x ∷ xs) (y ∷ ys) list more apart =
    let one = join_behind h 0 0 y.0 x xs list.chain list.distinct in
    let right = Chain-Outside (x ∷ xs) h one.heap 0 0 (y ∷ ys) one.outside apart more.chain in
    let two = join_first one.heap 0 (last_of x.0 xs) (y ∷ ys) right more.distinct in
    record {
      heap = two.heap;
      eq = ground (
        arith,
        more.chain.0.positive,
        list_last_lem h (x ∷ xs) list,
        last_of-positive h 0 0 x xs list.chain,
        one.eq,
        two.eq,
      );
      list = record {
        chain =
            Chain-join two.heap 0 0 (x ∷ xs) (y ∷ ys)
              (Chain-Outside (y ∷ ys) one.heap two.heap 0 y.0 (x ∷ xs) two.outside
                (Apart-sym (x ∷ xs) (y ∷ ys) apart) one.chain)
              two.chain;
        distinct =
            append-Distinct (x ∷ xs) (y ∷ ys)
              (record { left = list.distinct; right = more.distinct; apart = apart });
        started = ground (arith, list.started, one.fresh, two.fresh);
      };
    }
