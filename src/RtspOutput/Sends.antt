-- ===== src/RtspOutput/Sends.antt =====
-- `rtsp_client_write_data` of hmrtspsvr/src/rtsp/rtsp.c against the stream of bytes.
use hm_platform.Base.{
  ℕ, ◌+◌, ◌-◌, ◌^◌, ◌<◌, ◌≤◌, ◌≡◌, refl, sym, ap, subst, ◌∙◌, List, [], ◌∷◌, ◌++◌, append_assoc,
  append-nil, Option, none, some, leb, true, false, length, take, drop, arith, Bool-cases, inl, inr,
  length-append, length-drop, take_all, take-append-drop, ◌⊎◌, ◌≢◌,
}
use hm_platform.RtspOutput.{
  RtspRec, RtspClient, RtspResult, rtsp_ok, rtsp_error, rtsp_esys, rtsp_eintr, SendAnswer, Wrote,
  write_bytes, SentData, next_id, with_record, enqueue_data, wrote_direct, sent_direct,
  nothing_waits, write_data, would_block, max_data_pending,
}
use hm_platform.RtspOutput.Stream.{
  queued_bytes, buffer_left, pending, stream, Stopped, write_bytes-Stopped,
}

abbrev pub Offset : Option (List ℕ) → ℕ → Type 0
Offset none off = Unit
Offset (some buffer) off = off ≤ length buffer

-- The backlog is the number of bytes in the queue, and while anything waits so does the event.
pub record IsPrepared (c : RtspClient) : Type 0 where
  pub backlog : c.backlog ≡ length (queued_bytes c.output)
  pub bounded : c.backlog < max_data_pending + 2 ^ 32
  pub offset : Offset c.write_buffer c.write_off
  pub armed : nothing_waits c.write_buffer c.output ≡ false → c.wait_write ≡ true

queued_bytes-append :
    (rs ss : List RtspRec) → queued_bytes (rs ++ ss) ≡ queued_bytes rs ++ queued_bytes ss
queued_bytes-append [] ss = refl
queued_bytes-append (r ∷ rs) ss =
    ap (◌++◌ r.data_bytes) (queued_bytes-append rs ss)
    ∙ sym (append_assoc r.data_bytes (queued_bytes rs) (queued_bytes ss))

-- The queue's bytes with a record more.
more_bytes :
    (c : RtspClient) (bytes : List ℕ) (off : ℕ)
    → queued_bytes (with_record c bytes off).output ≡ queued_bytes c.output ++ drop off bytes
unfolding with_record
more_bytes c bytes off =
    queued_bytes-append c.output
      (record { data_bytes = drop off bytes; id = next_id c.rec_id } ∷ [])
    ∙ ap (◌++◌ (queued_bytes c.output)) (append-nil (drop off bytes))

stream-with_record :
    (c : RtspClient) (bytes : List ℕ) (off : ℕ)
    → stream (with_record c bytes off) ≡ stream c ++ drop off bytes
unfolding with_record
stream-with_record c bytes off =
    ap (λ l. c.wire ++ (buffer_left c.write_buffer c.write_off ++ l)) (more_bytes c bytes off)
    ∙ (ap (◌++◌ c.wire) (
          sym (
            append_assoc (buffer_left c.write_buffer c.write_off) (queued_bytes c.output)
              (drop off bytes)))
        ∙ sym (append_assoc c.wire (pending c) (drop off bytes)))

with_record-IsPrepared :
    (c : RtspClient) (bytes : List ℕ) (off : ℕ)
    → IsPrepared c
    → c.backlog < max_data_pending
    → length bytes < 2 ^ 32
    → IsPrepared (with_record c bytes off)
unfolding with_record
with_record-IsPrepared c bytes off ready room small =
    let short : length (drop off bytes) < 2 ^ 32 = omega (arith, length-drop off bytes, small) in
    record {
      backlog = omega (
        arith,
        ready.backlog,
        room,
        short,
        ap length (more_bytes c bytes off),
        length-append (queued_bytes c.output) (drop off bytes),
      );
      bounded = omega (arith, room, short);
      offset = ready.offset;
      armed = λ _. refl;
    }

-- What a message becomes: all of it follows what was sent and waits; or none of it, when the backlog
-- is full; or a part of it, when nothing waited and the socket failed.
pub record DataSent (c : RtspClient) (bytes : List ℕ) (r : SentData) : Type 0 where
  pub prepared : IsPrepared r.client
  pub accepted : r.result ≡ rtsp_ok → stream r.client ≡ stream c ++ bytes
  pub refused :
      r.result ≡ rtsp_eintr → (r.client ≡ c) × (r.freed ≡ false) × (max_data_pending ≤ c.backlog)
  pub cut :
      r.result ≡ rtsp_esys
      → (pending c ≡ []) × ((k : ℕ) × (stream r.client ≡ stream c ++ take k bytes))
  pub sane : r.result ≢ rtsp_error

-- What is put behind `base`, the client before the direct write.
enqueue_data_lem :
    (base c : RtspClient) (bytes : List ℕ) (off : ℕ)
    → IsPrepared c
    → length bytes < 2 ^ 32
    → stream c ++ drop off bytes ≡ stream base ++ bytes
    → (max_data_pending ≤ c.backlog → c ≡ base)
    → DataSent base bytes (enqueue_data c bytes off)
unfolding enqueue_data
enqueue_data_lem base c bytes off ready small same full =
    elim (Bool-cases (leb max_data_pending c.backlog)) [
      | inl many ↦
          let enough : max_data_pending ≤ c.backlog = ground (arith, many) in
          record {
            prepared = rw many ready;
            accepted = rw many (λ e. cc);
            refused = rw many (λ _. (
              full enough,
              refl,
              subst (λ b. max_data_pending ≤ b.backlog) (full enough) enough,
            ));
            cut = rw many (λ e. cc);
            sane = rw many (λ e. cc);
          }
      | inr few ↦
          let room : c.backlog < max_data_pending = ground (arith, few) in
          record {
            prepared = rw few (with_record-IsPrepared c bytes off ready room small);
            accepted = rw few (λ _. stream-with_record c bytes off ∙ same);
            refused = rw few (λ e. cc);
            cut = rw few (λ e. cc);
            sane = rw few (λ e. cc);
          }
    ]

result_cases :
    (r : RtspResult) → (r ≡ rtsp_eintr) ⊎ ((r ≡ rtsp_ok) ⊎ ((r ≡ rtsp_esys) ⊎ (r ≡ rtsp_error)))
result_cases rtsp_eintr = inl refl
result_cases rtsp_ok = inr (inl refl)
result_cases rtsp_esys = inr (inr (inl refl))
result_cases rtsp_error = inr (inr (inr refl))

-- With no buffer and no record, nothing is pending.
pub nothing_waits_lem :
    (b : Option (List ℕ)) (rs : List RtspRec) → nothing_waits b rs ≡ true → (b ≡ none) × (rs ≡ [])
nothing_waits_lem none [] idle = (refl, refl)
nothing_waits_lem none (r ∷ rs) idle = absurd cc
nothing_waits_lem (some b) rs idle = absurd cc

module _ (c : RtspClient) (bytes : List ℕ) (w : Wrote) (ready : IsPrepared c)
    (idle : nothing_waits c.write_buffer c.output ≡ true) (stop : Stopped 0 (length bytes) w) where
  nothing_pending : pending c ≡ []
  nothing_pending =
      let (no_buffer, no_rec) = nothing_waits_lem c.write_buffer c.output idle in
      rw (no_buffer, no_rec) refl

  no_backlog : c.backlog ≡ 0
  no_backlog =
      let (no_buffer, no_rec) = nothing_waits_lem c.write_buffer c.output idle in
      ready.backlog ∙ ap (λ rs. length (queued_bytes rs)) no_rec

  stream-wrote_direct : stream (wrote_direct c bytes w) ≡ stream c ++ take w.idx bytes
  stream-wrote_direct =
      ap (λ k. (c.wire ++ take k bytes) ++ pending c) {x = w.idx - 0} {y = w.idx} (omega arith)
      ∙ ap (◌++◌ (c.wire ++ take w.idx bytes)) nothing_pending
      ∙ (append-nil (c.wire ++ take w.idx bytes)
          ∙ ap (λ l. l ++ take w.idx bytes)
              (sym (ap (◌++◌ c.wire) nothing_pending ∙ append-nil c.wire)))

  wrote_direct-IsPrepared : IsPrepared (wrote_direct c bytes w)
  wrote_direct-IsPrepared = record {
    backlog = ready.backlog;
    bounded = ready.bounded;
    offset = ready.offset;
    armed = ready.armed;
  }

  rest_behind : stream (wrote_direct c bytes w) ++ drop w.idx bytes ≡ stream c ++ bytes
  rest_behind =
      ap (λ l. l ++ drop w.idx bytes) stream-wrote_direct
      ∙ (append_assoc (stream c) (take w.idx bytes) (drop w.idx bytes)
          ∙ ap (◌++◌ (stream c)) (take-append-drop w.idx bytes))

  sent_direct_lem : length bytes < 2 ^ 32 → DataSent c bytes (sent_direct c bytes w)
  unfolding sent_direct
  sent_direct_lem small = elim (result_cases w.result) [
    | inl blocked ↦ rw blocked (
        enqueue_data_lem c (wrote_direct c bytes w) bytes w.idx wrote_direct-IsPrepared small
          rest_behind (λ full. absurd (omega (arith, full, no_backlog))))
    | inr (inl good) ↦ record {
      prepared = rw good wrote_direct-IsPrepared;
      accepted = rw good (λ _.
          stream-wrote_direct
          ∙ ap (◌++◌ (stream c)) (take_all w.idx bytes (omega (arith, stop.done good))));
      refused = rw good (λ e. cc);
      cut = rw good (λ e. cc);
      sane = rw good (λ e. cc);
    }
    | inr (inr (inl bad)) ↦ record {
      prepared = rw bad wrote_direct-IsPrepared;
      accepted = rw bad (λ e. cc);
      refused = rw bad (λ e. cc);
      cut = rw bad (λ _. (nothing_pending, (w.idx, stream-wrote_direct)));
      sane = rw bad (λ e. cc);
    }
    | inr (inr (inr never)) ↦ absurd (stop.sane never)
  ]

-- A message of less than 4 gigabytes, given to the client while the backlog is its queue's size: if the
-- result is GST_RTSP_OK, all of it follows what was sent and is still to be sent; if it is
-- GST_RTSP_EINTR, the backlog is full, nothing changes and the message is neither kept nor freed; if it is
-- GST_RTSP_ESYS, nothing was waiting and a first part of it was sent. There is no other result, and
-- the backlog is its queue's size again.
pub write_data_lem :
    (answers : List SendAnswer) (c : RtspClient) (bytes : List ℕ)
    → IsPrepared c
    → length bytes < 2 ^ 32
    → DataSent c bytes (write_data answers c bytes)
unfolding write_data
write_data_lem answers c bytes ready small =
    elim (Bool-cases (nothing_waits c.write_buffer c.output)) [
      | inl idle ↦
          let w = write_bytes answers bytes 0 c.err_code in
          rw idle (
            sent_direct_lem c bytes w ready idle
              (write_bytes-Stopped answers bytes 0 c.err_code (omega arith)) small)
      | inr busy ↦ rw busy (enqueue_data_lem c c bytes 0 ready small refl (λ _. refl))
    ]

-- While the backlog is its queue's size: after `rtsp_client_would_block` said that a message of at least
-- a byte and less than 4 gigabytes would not block, sending it never meets a full backlog.
pub would_block-write_data :
    (answers : List SendAnswer) (c : RtspClient) (bytes : List ℕ)
    → IsPrepared c
    → 0 < length bytes
    → length bytes < 2 ^ 32
    → would_block c (length bytes) ≡ false
    → (write_data answers c bytes).result ≢ rtsp_eintr
unfolding would_block
would_block-write_data answers c bytes ready some_bytes small free blocked =
    let (same, kept, full) = (write_data_lem answers c bytes ready small).refused blocked in
    absurd (ground (arith, free, full, some_bytes, small, ready.bounded))
