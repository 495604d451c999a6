-- ===== src/RtspOutput/Stalls.antt =====
-- A message between the last round of `rtsp_client_write` and the removal of EV_WRITE, for which
-- hmrtspsvr/src/rtsp/rtsp.c has given the lock back.
use hm_platform.Base.{
  ℕ, suc, ◌-◌, ◌<◌, ◌≡◌, refl, ap, ◌∙◌, List, [], ◌∷◌, ◌++◌, append-nil, leb, ltb, true, false,
  length, arith,
}
use hm_platform.RtspOutput.{
  RtspClient, nothing_waits, write_data, write_bytes, write_left, sent_direct, enqueue_data,
  with_record, close_write, all_written, next_id, errno_eagain, rtsp_eintr, RtspRec,
  max_data_pending,
}
use hm_platform.RtspOutput.Stream.{queued_bytes, buffer_left, pending}
use hm_platform.RtspOutput.Sends.{IsPrepared, nothing_waits_lem}

-- The callback found all written, another thread sent a message that the socket did not take, and
-- then the callback goes on.
pub record Stalled (bytes : List ℕ) (c : RtspClient) : Type 0 where
  pub waits : c.wait_write ≡ false
  pub left : pending c ≡ bytes

-- A socket that takes nothing.
write_bytes-refused :
    (b : ℕ) (bs : List ℕ) (err : ℕ)
    → write_bytes [] (b ∷ bs) 0 err
      ≡ record { result = rtsp_eintr; idx = 0; err = errno_eagain; answers = [] }
unfolding write_bytes write_left
write_bytes-refused b bs err =
    let large : ltb (length (b ∷ bs)) 0 ≡ false = ground arith in
    rw large (
      ap (λ k. write_left [] k 0 err) {x = length (b ∷ bs) - 0} {y = suc (length bs)} (omega arith))

write_data-refused :
    (c : RtspClient) (b : ℕ) (bs : List ℕ)
    → IsPrepared c
    → nothing_waits c.write_buffer c.output ≡ true
    → pending (write_data [] c (b ∷ bs)).client ≡ b ∷ bs
unfolding write_data sent_direct enqueue_data with_record
write_data-refused c b bs ready idle =
    let (no_buffer, no_rec) = nothing_waits_lem c.write_buffer c.output idle in
    let nothing : c.backlog ≡ 0 = ready.backlog ∙ ap (λ rs. length (queued_bytes rs)) no_rec in
    let room : leb max_data_pending c.backlog ≡ false = ground (arith, nothing) in
    let r : RtspRec = record { data_bytes = b ∷ bs; id = next_id c.rec_id } in
    rw (idle, write_bytes-refused b bs c.err_code, room)
      (ap (λ o. buffer_left o c.write_off ++ queued_bytes (c.output ++ (r ∷ []))) no_buffer
        ∙ (ap (λ rs. queued_bytes (rs ++ (r ∷ []))) no_rec ∙ append-nil (b ∷ bs)))

-- A client to which nothing is to be sent: after its callback's last round and before the removal of
-- EV_WRITE another thread sends a message, none of which the socket takes. Then the message waits in
-- the queue, and the event does not wait for writing.
pub close_write-write_data :
    (c : RtspClient) (bytes : List ℕ)
    → IsPrepared c
    → nothing_waits c.write_buffer c.output ≡ true
    → 0 < length bytes
    → Stalled bytes
        (close_write (record { ended = all_written; client = (write_data [] c bytes).client })).1
unfolding close_write
close_write-write_data c [] ready idle some_bytes = absurd (omega (arith, some_bytes))
close_write-write_data c (b ∷ bs) ready idle some_bytes = record {
  waits = refl;
  left = write_data-refused c b bs ready idle;
}
