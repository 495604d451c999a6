-- ===== src/Defrag/Received.antt =====
-- Any sequence of calls of hm_net_packet_defrag: hmshare/src/hm_fragments.c.
use hm_platform.Base.{
  ℕ, ◌^◌, ◌≤◌, ◌≡◌, ◌⊎◌, refl, inl, inr, List, [], ◌∷◌, Option, none, some, length, arith,
}
use hm_platform.Defrag.{NetPackInfo, PacketFrags, insert_packet}
use hm_platform.Defrag.Sorted.{Numbered}
use hm_platform.Defrag.Whole.{made_of, IsMalloc}
use hm_platform.Defrag.Runs.{deliver, deliver_nil, deliver_cons}
use hm_platform.Defrag.Sound.{AllSound, AllOf, AllHeld, AllHeld-find_frags, AllOf-insert_packet}
use hm_platform.Defrag.Answers.{Answered, defrag_lem}

-- Whether a fragment is one of those that came, and is of a packet.
abbrev pub IsOneOf : NetPackInfo → List NetPackInfo → Type 0
IsOneOf p [] = ⊥
IsOneOf p (q ∷ qs) = (p ≡ q) ⊎ IsOneOf p qs

abbrev pub CameFor : List NetPackInfo → ℕ → NetPackInfo → Type 0
CameFor came i p = (p.private_from_low_layer ≡ i) × IsOneOf p came

-- What came, none of it above 16 megabytes.
abbrev pub AllCame : List NetPackInfo → List NetPackInfo → Type 0
AllCame came [] = Unit
AllCame came (p ∷ ps) = (IsOneOf p came × length p.start ≤ 2 ^ 24) × AllCame came ps

-- A whole packet, made of fragments that came for it.
pub record MadeWhole (came : List NetPackInfo) (out : Option NetPackInfo) : Type 0 where
  pub identity : ℕ
  pub parts : List NetPackInfo
  pub eq : out ≡ some (made_of parts)
  pub numbered : Numbered 1 parts
  pub few : length parts ≤ 64
  pub of_packet : AllOf (CameFor came) identity parts

-- NULL, a packet that was no fragment, or a packet made whole.
abbrev pub IsAnswer : List NetPackInfo → Option NetPackInfo → Type 0
IsAnswer came out =
    (out ≡ none)
    ⊎ (((np : NetPackInfo) × out ≡ some np × np.total_packets ≤ 1 × IsOneOf np came)
        ⊎ MadeWhole came out)

abbrev pub AllAnswers : List NetPackInfo → List (Option NetPackInfo) → Type 0
AllAnswers came [] = Unit
AllAnswers came (out ∷ outs) = IsAnswer came out × AllAnswers came outs

pub record Delivered (came : List NetPackInfo)
    (run : Option (List (Option NetPackInfo) × List PacketFrags)) : Type 0 where
  pub outs : List (Option NetPackInfo)
  pub after : List PacketFrags
  pub eq : run ≡ some (outs, after)
  pub sound : AllSound after
  pub held : AllHeld (CameFor came) after
  pub answers : AllAnswers came outs

module _ (malloc : ℕ → Option (List ℕ)) (sized : IsMalloc malloc) where
  given-IsAnswer :
      (came : List NetPackInfo) (pl : List PacketFrags) (np : NetPackInfo)
      (r : Answered malloc sized pl np)
      → AllHeld (CameFor came) pl
      → IsOneOf np came
      → IsAnswer came r.out
  given-IsAnswer came pl np r held here = elim r.given [
    | inl nothing ↦ inl nothing
    | inr (inl (single, same)) ↦ inr (inl (np, same, single, here))
    | inr (inr (f, found, made, numbered, count, few)) ↦ inr (
        inr (record {
          identity = np.private_from_low_layer;
          parts = insert_packet f.packets np;
          eq = made;
          numbered = numbered;
          few = omega (arith, count, few);
          of_packet =
              AllOf-insert_packet (CameFor came) np.private_from_low_layer f.packets np
                (AllHeld-find_frags (CameFor came) np.private_from_low_layer pl f held found)
                (refl, here);
        }))
  ]

  deliver_rest :
      (came : List NetPackInfo) (pl : List PacketFrags) (nps : List NetPackInfo)
      → AllSound pl
      → AllHeld (CameFor came) pl
      → AllCame came nps
      → Delivered came (deliver malloc pl nps)
  deliver_rest came pl [] all held sent = record {
    outs = [];
    after = pl;
    eq = deliver_nil malloc sized pl;
    sound = all;
    held = held;
    answers = tt;
  }
  deliver_rest came pl (np ∷ nps) all held sent =
      let r = defrag_lem malloc sized pl np all sent.0.1 in
      let kept = r.keeps (CameFor came) held (refl, sent.0.0) in
      let rest = deliver_rest came r.after nps r.sound kept sent.1 in
      record {
        outs = r.out ∷ rest.outs;
        after = rest.after;
        eq = deliver_cons malloc sized pl r.after rest.after np nps r.out rest.outs r.eq rest.eq;
        sound = rest.sound;
        held = rest.held;
        answers = (given-IsAnswer came pl np r held sent.0.0, rest.answers);
      }

  -- Whatever fragments come, in any number and order and of any packets, none above 16 megabytes, from
  -- an empty table on: no call goes out of bounds, and each returns NULL, or a packet that came and is
  -- no fragment, or the payloads of at most 64 fragments that came, all of one identity and numbered 1, 2
  -- and so on, in this order. The table holds only fragments that came, under their identities.
  pub deliver-Delivered :
      (came : List NetPackInfo) → AllCame came came → Delivered came (deliver malloc [] came)
  deliver-Delivered came sent = deliver_rest came [] came tt tt sent
