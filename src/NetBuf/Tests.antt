-- ===== src/NetBuf/Tests.antt =====
-- Runs of the ring over blocks of four bytes, and the theorems about it there.
use mathlib.Core.Option
use hm_platform.Base.{
  ℕ, ◌≡◌, ◌<◌, refl, List, [], ◌∷◌, none, some, arith, min, length, true, false, Bool,
}
use hm_platform.NetBuf.{
  NetBuf, BufBlock, Flusher, Wire, Ret, bytes, net_buf_alloc, net_buf_flush, net_buf_write, append,
  last_pos, send,
}
use hm_platform.NetBuf.Inv.{IsValid, net_buf_alloc-IsValid, contents}
use hm_platform.NetBuf.Rounds.{IsHonest, Drained}
use hm_platform.NetBuf.Flush.{net_buf_flush_lem}
use hm_platform.NetBuf.Write.{Written, net_buf_write_lem}

-- A worker that takes at most as many bytes as its world says.
abbrev credit : Flusher ℕ
credit bs n = (bytes (min n (length bs)), n)

credit-IsHonest : IsHonest credit
credit-IsHonest bs world n e = ground (arith, e)

abbrev block : Bool → ℕ → ℕ → List ℕ → BufBlock
block busy s e raw = record { is_busy = busy; start_pos = s; end_pos = e; raw_data = raw }

-- Two blocks: the second one holds 7 and 8, the first one 9.
abbrev wrapped : NetBuf
wrapped = record {
  num_buffers = 2;
  no_blocks = true;
  next_use = 1;
  next_deal = 1;
  buffer_bytes = 3;
  buff = block true 0 1 (9 ∷ 0 ∷ 0 ∷ 0 ∷ []) ∷ block true 1 3 (6 ∷ 7 ∷ 8 ∷ 0 ∷ []) ∷ [];
}

abbrev wire : Wire ℕ
wire = record { world = 2; sent = 6 ∷ [] }

wrapped-IsValid : IsValid 4 wrapped
unfolding contents
wrapped-IsValid = ground arith

contents-wrapped : contents wrapped ≡ 7 ∷ 8 ∷ 9 ∷ []
unfolding contents
contents-wrapped = refl

write_appends :
    Option.map (λ r. contents r.2) (net_buf_write 4 credit wrapped (1 ∷ 2 ∷ []) false wire)
    ≡ some (7 ∷ 8 ∷ 9 ∷ 1 ∷ 2 ∷ [])
unfolding net_buf_write append last_pos contents send
write_appends = refl

alloc_example :
    (0 < 2 → (b : NetBuf) × (net_buf_alloc 4 2 ≡ some b) × IsValid 4 b × (contents b ≡ []))
    × (net_buf_alloc 4 0 ≡ none)
alloc_example = net_buf_alloc-IsValid 4 2

flush_example :
    (r : Ret) × (b' : NetBuf) × (w' : Wire ℕ) × (net_buf_flush 4 credit wrapped wire
      ≡ some (r, b', w'))
    × Drained 4 (6 ∷ contents wrapped) r b' w'
flush_example = net_buf_flush_lem credit credit-IsHonest 4 wrapped wire wrapped-IsValid

write_example :
    (r : Ret) × (p : Bool) × (b' : NetBuf) × (w' : Wire ℕ) × (net_buf_write 4 credit wrapped
        (1 ∷ 2 ∷ [])
        false
        wire
      ≡ some (r, p, b', w'))
    × Written 4 (6 ∷ contents wrapped) (1 ∷ 2 ∷ []) r b' w'
write_example =
    net_buf_write_lem credit credit-IsHonest 4 (1 ∷ 2 ∷ []) false wrapped wire wrapped-IsValid
