-- ===== src/RtspOutput/Drains.antt =====
-- `rtsp_client_write` of hmrtspsvr/src/rtsp/rtsp.c against the stream of bytes.
use hm_platform.Base.{
  ℕ, ◌≡◌, refl, sym, ap, subst, ◌∙◌, List, [], ◌∷◌, ◌++◌, append_assoc, none, some, Bool, true,
  false, length, drop, arith, Bool-cases, inl, inr, length-append, drop_all, ◌⊎◌, Option-cases,
}
use hm_platform.RtspOutput.{
  RtspRec, RtspClient, RtspResult, rtsp_ok, rtsp_error, rtsp_esys, rtsp_eintr, SendAnswer, Wrote,
  write_bytes, between, nothing_waits, take_rec, wrote_buffer, WriteEnd, all_written, socket_full,
  socket_failed, ClientWrote, after_round, drain, rounds_from, write_rounds, close_write,
  client_write,
}
use hm_platform.RtspOutput.Stream.{
  queued_bytes, buffer_left, pending, stream, Stopped, write_bytes-Stopped, between-drop,
}
use hm_platform.RtspOutput.Sends.{Offset, IsPrepared, nothing_waits_lem}

-- What the rounds leave: the same stream, and nothing of it when all was written.
pub record Drained (c : RtspClient) (r : ClientWrote) : Type 0 where
  pub prepared : IsPrepared r.client
  pub same : stream r.client ≡ stream c
  pub done : r.ended ≡ all_written → nothing_waits r.client.write_buffer r.client.output ≡ true

after_round-Drained :
    (result : RtspResult) (c c1 : RtspClient) (next : ClientWrote)
    → IsPrepared c1
    → stream c1 ≡ stream c
    → (result ≡ rtsp_ok → Drained c next)
    → Drained c (after_round result c1 next)
after_round-Drained rtsp_ok c c1 next ready same more = more refl
after_round-Drained rtsp_eintr c c1 next ready same more = record {
  prepared = ready;
  same = same;
  done = λ e. cc;
}
after_round-Drained rtsp_esys c c1 next ready same more = record {
  prepared = ready;
  same = same;
  done = λ e. cc;
}
after_round-Drained rtsp_error c c1 next ready same more = record {
  prepared = ready;
  same = same;
  done = λ e. cc;
}

abbrev cleared : RtspClient → RtspClient
cleared c = record c { write_buffer = none }

-- A round with the buffer in a client that has it.
module _ (c : RtspClient) (buffer : List ℕ) (w : Wrote) where
  round-stream :
      Stopped c.write_off (length buffer) w
      → stream (record (wrote_buffer c buffer w) { write_buffer = some buffer })
        ≡ c.wire ++ (drop c.write_off buffer ++ queued_bytes c.output)
  round-stream stop =
      append_assoc c.wire (between buffer c.write_off w.idx)
        (drop w.idx buffer ++ queued_bytes c.output)
      ∙ ap (◌++◌ c.wire) (
          sym (
            append_assoc (between buffer c.write_off w.idx) (drop w.idx buffer)
              (queued_bytes c.output))
          ∙ ap (λ l. l ++ queued_bytes c.output) (between-drop buffer c.write_off w.idx stop.start))

  cleared-stream :
      Stopped c.write_off (length buffer) w
      → w.result ≡ rtsp_ok
      → stream (cleared (wrote_buffer c buffer w))
        ≡ stream (record (wrote_buffer c buffer w) { write_buffer = some buffer })
  cleared-stream stop good =
      ap (λ l. (c.wire ++ between buffer c.write_off w.idx) ++ (l ++ queued_bytes c.output))
        (sym (drop_all w.idx buffer (omega (arith, stop.done good))))

-- The client with the oldest record as its buffer.
took_rec-IsPrepared :
    (rec : RtspRec) (rest : List RtspRec) (c : RtspClient)
    → IsPrepared c
    → c.output ≡ rec ∷ rest
    → c.wait_write ≡ true
    → IsPrepared (take_rec rec rest c)
unfolding take_rec
took_rec-IsPrepared rec rest c ready head waits =
    let total =
      ready.backlog
      ∙ (ap (λ rs. length (queued_bytes rs)) head
          ∙ length-append rec.data_bytes (queued_bytes rest)) in
    record {
      backlog = ground (arith, total);
      bounded = ground (arith, total, ready.bounded);
      offset = omega arith;
      armed = λ _. waits;
    }

drain-Drained :
    (rs : List RtspRec) (answers : List SendAnswer) (c : RtspClient)
    → IsPrepared c
    → c.output ≡ rs
    → c.write_buffer ≡ none
    → Drained c (drain rs answers c)
unfolding drain take_rec
drain-Drained [] answers c ready empty no_buffer = record {
  prepared = ready;
  same = refl;
  done = λ _. rw (no_buffer, empty) refl;
}
drain-Drained (rec ∷ rest) answers c ready head no_buffer =
    let bytes = rec.data_bytes in
    let w = write_bytes answers bytes 0 c.err_code in
    let stop = write_bytes-Stopped answers bytes 0 c.err_code (omega arith) in
    let waits = ready.armed (rw (no_buffer, head) refl) in
    let c0 = take_rec rec rest c in
    let taken = took_rec-IsPrepared rec rest c ready head waits in
    let c1 = wrote_buffer c0 bytes w in
    let begin : c.wire ++ (bytes ++ queued_bytes rest) ≡ stream c =
      ap (◌++◌ c.wire) (sym (rw (no_buffer, head) refl)) in
    let ready1 : IsPrepared c1 = record {
      backlog = taken.backlog;
      bounded = taken.bounded;
      offset = stop.inside;
      armed = λ _. waits;
    } in
    let ready2 : IsPrepared (cleared c1) = record {
      backlog = taken.backlog;
      bounded = taken.bounded;
      offset = tt;
      armed = λ _. waits;
    } in
    let same1 = round-stream c0 bytes w stop ∙ begin in
    after_round-Drained w.result c c1 (drain rest w.answers (cleared c1)) ready1 same1 (λ good.
      let next = drain-Drained rest w.answers (cleared c1) ready2 refl refl in
      record {
        prepared = next.prepared;
        same = next.same ∙ (cleared-stream c0 bytes w stop good ∙ same1);
        done = next.done;
      })

write_rounds-Drained :
    (answers : List SendAnswer) (c : RtspClient) → IsPrepared c → Drained c (write_rounds answers c)
unfolding write_rounds
write_rounds-Drained answers c ready = elim (Option-cases c.write_buffer) [
  | inl no_buffer ↦
      subst (λ b. Drained c (rounds_from answers c b)) (sym no_buffer)
        (drain-Drained c.output answers c ready refl no_buffer)
  | inr (buffer, here) ↦
      let w = write_bytes answers buffer c.write_off c.err_code in
      let inside = subst (λ b. Offset b c.write_off) here ready.offset in
      let stop = write_bytes-Stopped answers buffer c.write_off c.err_code inside in
      let waits = ready.armed (rw here refl) in
      let c1 = wrote_buffer c buffer w in
      let ready1 : IsPrepared c1 = record {
        backlog = ready.backlog;
        bounded = ready.bounded;
        offset = subst (λ b. Offset b w.idx) (sym here) stop.inside;
        armed = λ _. waits;
      } in
      let ready2 : IsPrepared (cleared c1) = record {
        backlog = ready.backlog;
        bounded = ready.bounded;
        offset = tt;
        armed = λ _. waits;
      } in
      let whole : stream c1 ≡ stream (record c1 { write_buffer = some buffer }) =
        ap (λ b. c1.wire ++ (buffer_left b w.idx ++ queued_bytes c.output)) here in
      let begin : c.wire ++ (drop c.write_off buffer ++ queued_bytes c.output) ≡ stream c =
        ap (λ b. c.wire ++ (buffer_left b c.write_off ++ queued_bytes c.output)) (sym here) in
      let same1 = round-stream c buffer w stop ∙ begin in
      subst (λ b. Drained c (rounds_from answers c b)) (sym here)
        (after_round-Drained w.result c c1 (drain c.output w.answers (cleared c1)) ready1
          (whole ∙ same1)
          (λ good.
            let next = drain-Drained c.output w.answers (cleared c1) ready2 refl refl in
            record {
              prepared = next.prepared;
              same = next.same ∙ (cleared-stream c buffer w stop good ∙ same1);
              done = next.done;
            }))
]

idle_lem : (c : RtspClient) → IsPrepared c → c.wait_write ≡ false → pending c ≡ []
idle_lem c ready still = elim (Bool-cases (nothing_waits c.write_buffer c.output)) [
  | inl idle ↦
      let (no_buffer, no_rec) = nothing_waits_lem c.write_buffer c.output idle in
      rw (no_buffer, no_rec) refl
  | inr busy ↦ let waits = ready.armed busy in absurd cc
]

-- What the event's callback leaves of a client, and whether the event stays.
pub record ClientWritten (c : RtspClient) (r : Bool × RtspClient) : Type 0 where
  pub prepared : IsPrepared r.1
  pub same : stream r.1 ≡ stream c
  pub dropped : r.0 ≡ false → r.1.killed ≡ true
  pub idle : r.1.wait_write ≡ false → pending r.1 ≡ []

write_end_cases : (e : WriteEnd) → (e ≡ all_written) ⊎ ((e ≡ socket_full) ⊎ (e ≡ socket_failed))
write_end_cases all_written = inl refl
write_end_cases socket_full = inr (inl refl)
write_end_cases socket_failed = inr (inr refl)

closed : (c : RtspClient) (r : ClientWrote) → Drained c r → ClientWritten c (close_write r)
unfolding close_write
closed c r drained = elim (write_end_cases r.ended) [
  | inl all ↦
      let idle = drained.done all in
      let (no_buffer, no_rec) = nothing_waits_lem r.client.write_buffer r.client.output idle in
      record {
        prepared = rw all (record {
          backlog = drained.prepared.backlog;
          bounded = drained.prepared.bounded;
          offset = drained.prepared.offset;
          armed = λ busy. absurd cc;
        });
        same = rw all drained.same;
        dropped = rw all (λ e. absurd cc);
        idle = rw all (λ _. rw (no_buffer, no_rec) refl);
      }
  | inr (inl full) ↦ record {
    prepared = rw full drained.prepared;
    same = rw full drained.same;
    dropped = rw full (λ e. absurd cc);
    idle = rw full (idle_lem r.client drained.prepared);
  }
  | inr (inr bad) ↦ record {
    prepared = rw bad (record {
      backlog = drained.prepared.backlog;
      bounded = drained.prepared.bounded;
      offset = drained.prepared.offset;
      armed = drained.prepared.armed;
    });
    same = rw bad drained.same;
    dropped = rw bad (λ _. refl);
    idle = rw bad (idle_lem r.client drained.prepared);
  }
]

-- Of a client whose backlog is its queue's size and whose event waits for writing while there is
-- something to be sent: whatever the socket answers when the event's callback writes, the bytes that it took and those still
-- to be sent are the same stream as before, none lost, repeated or out of order, the backlog is the
-- size of the queue, the event is dropped only when the client was killed, and while it does not wait
-- for writing nothing is to be sent. No other thread may send while the callback runs.
pub client_write_lem :
    (answers : List SendAnswer) (c : RtspClient)
    → IsPrepared c
    → ClientWritten c (client_write answers c)
unfolding client_write
client_write_lem answers c ready =
    closed c (write_rounds answers c) (write_rounds-Drained answers c ready)
