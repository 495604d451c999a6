-- ===== src/NetBuf.antt =====
-- The ring of I/O buffers in front of a socket: hmnet/src/hm_netbuf.c.
-- Each entry point holds `buf_lock`, so a call is one step. The flush worker is a parameter: it is
-- given bytes and the state of its world, and answers how many it took or an error.
-- `none` is BUG, or a loop that ran out of fuel.
pub mod Window
pub mod Inv
pub mod Drain
pub mod Rounds
pub mod Flush
pub mod Fill
pub mod Append
pub mod Write
mod Tests
use hm_platform.Base.{
  ℕ, zero, suc, ◌+◌, ◌-◌, Bool, true, false, List, [], ◌∷◌, ◌++◌, Option, none, some, ltb, leb,
  ◌==◌, if◌then◌else◌, ◌>>=◌, assert, get_or, set, take, drop, replicate, length, not,
}

-- `struct _JBufBlock`; the data are the bytes at `start_pos .. end_pos`.
pub record BufBlock : Type 0 where
  pub is_busy : Bool
  pub start_pos : ℕ
  pub end_pos : ℕ
  pub raw_data : List ℕ

abbrev pub no_block : BufBlock
no_block = record { is_busy = false; start_pos = 0; end_pos = 0; raw_data = [] }

-- `struct _JNetBuf` with the blocks behind it.
pub record NetBuf : Type 0 where
  pub num_buffers : ℕ
  pub no_blocks : Bool
  pub next_use : ℕ
  pub next_deal : ℕ
  pub buffer_bytes : ℕ
  pub buff : List BufBlock

-- What the flush worker, and the calls here, return: a count of bytes, or minus a positive code.
pub data Ret : Type 0 where
  bytes : ℕ → Ret
  error : ℕ → Ret

-- The world of the flush worker, and the bytes that it has taken so far.
pub record Wire (W : Type 0) : Type 0 where
  pub world : W
  pub sent : List ℕ

abbrev pub Flusher : Type 0 → Type 0
Flusher W = List ℕ → W → Ret × W

abbrev pub memcpy : List ℕ → ℕ → List ℕ → List ℕ
memcpy raw pos src = take pos raw ++ (src ++ drop (pos + length src) raw)

abbrev pub block_at : NetBuf → ℕ → BufBlock
block_at b i = get_or b.buff i no_block

abbrev pub put_block : NetBuf → ℕ → BufBlock → NetBuf
put_block b i k = record b { buff = set b.buff i k }

pub last_pos : NetBuf → Option ℕ
last_pos b =
    let last = if b.next_use == 0 then b.num_buffers - 1 else b.next_use - 1 in
    if (block_at b last).is_busy then some last else none

-- `++pos`, going round at the count of buffers
abbrev pub step_from : ℕ → ℕ → ℕ
step_from n pos = if leb n (pos + 1) then 0 else pos + 1

pub write_ok : NetBuf → NetBuf
write_ok b =
    let deal = if b.next_deal == b.num_buffers then b.next_use else b.next_deal in
    let use' = step_from b.num_buffers b.next_use in
    record b {
      next_deal = deal;
      next_use = use';
      no_blocks = if use' == deal then true else b.no_blocks;
    }

abbrev pub cleared : BufBlock → BufBlock
cleared k = record k { is_busy = false; start_pos = 0; end_pos = 0 }

pub flush_ok : NetBuf → NetBuf
flush_ok b =
    let b1 = put_block b b.next_deal (cleared (block_at b b.next_deal)) in
    let next = step_from b.num_buffers b.next_deal in
    record b1 {
      no_blocks = false;
      next_deal = if (block_at b1 next).is_busy then next else b.num_buffers;
    }

abbrev pub e_packet2long : ℕ
e_packet2long = 309

-- A block's data.
abbrev pub data_of : BufBlock → List ℕ
data_of k = take (k.end_pos - k.start_pos) (drop k.start_pos k.raw_data)

-- The part of `write` that fills the next free block.
pub fill_next : NetBuf → List ℕ → Option NetBuf
fill_next b rest =
    let k = block_at b b.next_use in
    assert (not k.is_busy) (
      some (
        write_ok
          (record (put_block b b.next_use (record k {
            is_busy = true;
            start_pos = 0;
            end_pos = length rest;
            raw_data = memcpy k.raw_data 0 rest;
          })) { buffer_bytes = b.buffer_bytes + length rest })))

-- The call of the flush worker.
pub send : {W : Type 0} → Flusher W → List ℕ → Wire W → Ret × Wire W
send flush bs w =
    let (r, world) = flush bs w.world in
    (
      r,
      elim r [
        | bytes n ↦ record { world = world; sent = w.sent ++ take n bs }
        | error e ↦ record { world = world; sent = w.sent }
      ],
    )

-- The blocks are `max_io` (MAX_IO_BUFFER_SIZE, 65536) bytes long.
module _ (max_io : ℕ) where
  pub net_buf_alloc : ℕ → Option NetBuf
  net_buf_alloc n =
      if n == 0
      then none
      else some (record {
        num_buffers = n;
        no_blocks = false;
        next_use = 0;
        next_deal = n;
        buffer_bytes = 0;
        buff = replicate n (record no_block { raw_data = replicate max_io 0 });
      })

  module _ {W : Type 0} (flush : Flusher W) where
    pub flush_loop : ℕ → NetBuf → Wire W → Option (Ret × NetBuf × Wire W)
    flush_loop zero b w = none
    flush_loop (suc fuel) b w =
        let k = block_at b b.next_deal in
        let left = k.end_pos - k.start_pos in
        let (r, w') = send flush (data_of k) w in
        elim (b.next_deal == b.num_buffers) [
          | true ↦ some (bytes 0, b, w)
          | false ↦ assert k.is_busy (
              assert (ltb 0 left) (elim r [
                | error e ↦ some (error e, b, w')
                | bytes n ↦
                    let b1 = record b { buffer_bytes = b.buffer_bytes - n } in
                    elim (n == left) [
                      | true ↦ flush_loop fuel (flush_ok b1) w'
                      | false ↦ assert (leb n left) (
                          some (
                            bytes b1.buffer_bytes,
                            put_block b1 b.next_deal (record k { start_pos = k.start_pos + n }),
                            w',
                          ))
                    ]
              ]))
        ]

    -- Each full round frees a block, so the rounds are at most the blocks and one more.
    pub net_buf_flush : NetBuf → Wire W → Option (Ret × NetBuf × Wire W)
    net_buf_flush b w = flush_loop (suc b.num_buffers) b w

    -- What `append` returns, and `*pending`, which it leaves alone on its first two returns.
    pub append : NetBuf → List ℕ → Bool → Wire W → Ret × Bool × NetBuf × Wire W
    append b bs pending w =
        let (r, w') = send flush bs w in
        if ltb max_io (length bs)
        then (error e_packet2long, pending, b, w)
        else if length bs == 0
        then (bytes 0, pending, b, w)
        else elim (last_pos b) [
          | none ↦ (r, elim r [ bytes n ↦ not (n == length bs) | error e ↦ true ], b, w')
          | some last ↦
              let k = block_at b last in
              if leb (length bs) (max_io - k.end_pos)
              then (
                bytes (length bs),
                true,
                record (put_block b last (record k {
                  raw_data = memcpy k.raw_data k.end_pos bs;
                  end_pos = k.end_pos + length bs;
                })) { buffer_bytes = b.buffer_bytes + length bs },
                w,
              )
              else (bytes 0, true, b, w)
        ]

    pub net_buf_write : NetBuf → List ℕ → Bool → Wire W → Option (Ret × Bool × NetBuf × Wire W)
    net_buf_write b bs pending w =
        let (r, pending', b1, w1) = append b bs pending w in
        elim r [
          | error e ↦ some (error e, pending', b1, w1)
          | bytes n ↦
              let rest = drop n bs in
              if length bs - n == 0
              then some (bytes (length bs), pending', b1, w1)
              else if b1.no_blocks
              then some (bytes 0, pending', b1, w1)
              else (do b2 ← fill_next b1 rest; some (bytes (length bs), pending', b2, w1))
        ]
