-- ===== src/LinkedList/Tests.antt =====
-- Lists of one, two and three links: hmlib/src/hm_list.c.
use hm_platform.Base.{refl, [], ◌∷◌, ◌++◌, none, some, arith}
use hm_platform.LinkedList.{
  Heap, update, list_add_tail, list_delete_link, list_remove_all, list_concat, list_free,
}
use hm_platform.LinkedList.Chain.{Items, IsList}
use hm_platform.LinkedList.Adds.{Made, list_add_tail_lem}
use hm_platform.LinkedList.Removes.{Deleted, list_delete_link_lem}
use hm_platform.LinkedList.Erase.{list_remove_all_lem}
use hm_platform.LinkedList.Concat.{list_concat_lem}
use hm_platform.LinkedList.Walks.{Freed, list_free_lem}

-- The links at 1, 2 and 3 are one list and the link at 4 another.
abbrev memory : Heap
memory = record {
  cell =
      update
        (update
          (update (update (λ a. none) 1 (some (record { item = 7; next = 2; prev = 0 }))) 2
            (some (record { item = 8; next = 3; prev = 1 })))
          3 (some (record { item = 7; next = 0; prev = 2 })))
        4 (some (record { item = 9; next = 0; prev = 0 }));
  fresh = 5;
}

abbrev three : Items
three = (1, 7) ∷ (2, 8) ∷ (3, 7) ∷ []

abbrev single : Items
single = (4, 9) ∷ []

three-IsList : IsList memory three
three-IsList = record {
  chain = (
    record { positive = omega arith; below = omega arith; here = refl },
    (
      record { positive = omega arith; below = omega arith; here = refl },
      (record { positive = omega arith; below = omega arith; here = refl }, tt),
    ),
  );
  distinct = (
    ((λ e. absurd (omega (arith, e))), ((λ e. absurd (omega (arith, e))), tt)),
    (((λ e. absurd (omega (arith, e))), tt), (tt, tt)),
  );
  started = omega arith;
}

single-IsList : IsList memory single
single-IsList = record {
  chain = (record { positive = omega arith; below = omega arith; here = refl }, tt);
  distinct = (tt, tt);
  started = omega arith;
}

add_tail_example : Made memory (three ++ ((5, 6) ∷ [])) (list_add_tail memory 1 6)
add_tail_example = list_add_tail_lem memory three 6 three-IsList

delete_link_example : Deleted memory ((1, 7) ∷ (3, 7) ∷ []) 2 (list_delete_link memory 1 2)
delete_link_example = list_delete_link_lem memory ((1, 7) ∷ []) ((3, 7) ∷ []) (2, 8) three-IsList

remove_all_example : Made memory ((2, 8) ∷ []) (list_remove_all memory 1 7)
remove_all_example = list_remove_all_lem memory three 7 three-IsList

concat_example : Made memory (three ++ single) (list_concat memory 1 4)
concat_example = list_concat_lem memory three single three-IsList single-IsList (
  (
    (λ e. absurd (omega (arith, e))),
    ((λ e. absurd (omega (arith, e))), ((λ e. absurd (omega (arith, e))), tt)),
  ),
  tt,
)

free_example : Freed memory three (list_free memory 1)
free_example = list_free_lem memory three three-IsList
