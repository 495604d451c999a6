-- ===== src/RtspOutput.antt =====
-- What an RTSP client of the server is sent: hmrtspsvr/src/rtsp/rtsp.c, its output queue and the buffer
-- that is being written. Buffers are lists of bytes, whose length is the size that the code keeps beside
-- them. The queue is listed from its tail, the oldest record, to its head.
pub mod Stream
pub mod Sends
pub mod Drains
pub mod Takes
pub mod Stalls
mod Tests
use hm_platform.Base.{
  ℕ, zero, suc, ◌+◌, ◌-◌, ◌*◌, ◌%◌, ◌^◌, min, List, [], ◌∷◌, ◌++◌, Option, none, some, ltb, leb,
  ◌==◌, if◌then◌else◌, Bool, true, false, length, take, drop,
}

-- `struct _RTSP_rec`
pub record RtspRec : Type 0 where
  pub data_bytes : List ℕ
  pub id : ℕ

-- The part of `struct _RTSP_Client` that writing uses, and two things kept elsewhere: whether the
-- `events` of its event have EV_WRITE, and all bytes that the socket took.
pub record RtspClient : Type 0 where
  pub output : List RtspRec
  pub write_buffer : Option (List ℕ)
  pub write_off : ℕ
  pub backlog : ℕ
  pub rec_id : ℕ
  pub err_code : ℕ
  pub killed : Bool
  pub wait_write : Bool
  pub wire : List ℕ

-- The values of GstRTSPResult that are used here.
pub data RtspResult : Type 0 where
  rtsp_ok : RtspResult
  rtsp_error : RtspResult
  rtsp_esys : RtspResult
  rtsp_eintr : RtspResult

-- How `send` may answer: it takes `n + 1` of the bytes, or all if there are fewer, or 0, or it fails
-- with an `errno`.
pub data SendAnswer : Type 0 where
  took : ℕ → SendAnswer
  took_none : SendAnswer
  failed : ℕ → SendAnswer

abbrev pub max_data_pending : ℕ
max_data_pending = 4096 * 32

abbrev pub errno_eintr : ℕ
errno_eintr = 4

abbrev pub errno_eagain : ℕ
errno_eagain = 11

abbrev pub errno_einval : ℕ
errno_einval = 22

-- What a write returns and leaves: the index behind the bytes taken, and the answers still to come.
pub record Wrote : Type 0 where
  pub result : RtspResult
  pub idx : ℕ
  pub err : ℕ
  pub answers : List SendAnswer

-- The loop of `rtsp_client_write_bytes`, an answer for each round; when no answer is left the socket
-- takes no more.
pub write_left : List SendAnswer → ℕ → ℕ → ℕ → Wrote
write_left answers zero idx err = record {
  result = rtsp_ok;
  idx = idx;
  err = err;
  answers = answers;
}
write_left [] (suc left) idx err = record {
  result = rtsp_eintr;
  idx = idx;
  err = errno_eagain;
  answers = [];
}
write_left (took n ∷ answers) (suc left) idx err =
    write_left answers (suc left - suc n) (idx + min (suc n) (suc left)) err
write_left (took_none ∷ answers) (suc left) idx err = record {
  result = rtsp_eintr;
  idx = idx;
  err = err;
  answers = answers;
}
write_left (failed e ∷ answers) (suc left) idx err =
    let again = write_left answers (suc left) idx 0 in
    if e == errno_eagain
    then record { result = rtsp_eintr; idx = idx; err = e; answers = answers }
    else (if e == errno_eintr
        then again
        else record { result = rtsp_esys; idx = idx; err = e; answers = answers })

pub write_bytes : List SendAnswer → List ℕ → ℕ → ℕ → Wrote
write_bytes answers buffer idx err =
    let sent = write_left answers (length buffer - idx) idx err in
    if ltb (length buffer) idx
    then record { result = rtsp_error; idx = idx; err = errno_einval; answers = answers }
    else sent

-- The bytes of the buffer between two indices.
abbrev pub between : List ℕ → ℕ → ℕ → List ℕ
between buffer from to = take (to - from) (drop from buffer)

-- What `rtsp_client_write_data` returns: the id, when it sets one, and whether it frees `data`.
pub record SentData : Type 0 where
  pub result : RtspResult
  pub id : Option ℕ
  pub freed : Bool
  pub client : RtspClient

-- Ids are never 0.
abbrev pub next_id : ℕ → ℕ
next_id id = if (id + 1) % 2 ^ 32 == 0 then 1 else (id + 1) % 2 ^ 32

pub with_record : RtspClient → List ℕ → ℕ → RtspClient
with_record c bytes off = record c {
  output = c.output ++ (record { data_bytes = drop off bytes; id = next_id c.rec_id } ∷ []);
  backlog = (c.backlog + length (drop off bytes)) % 2 ^ 64;
  rec_id = next_id c.rec_id;
  wait_write = true;
}

-- The part of `rtsp_client_write_data` behind the direct write.
pub enqueue_data : RtspClient → List ℕ → ℕ → SentData
enqueue_data c bytes off =
    if leb max_data_pending c.backlog
    then record { result = rtsp_eintr; id = none; freed = false; client = c }
    else record {
      result = rtsp_ok;
      id = some (next_id c.rec_id);
      freed = if off == 0 then false else true;
      client = with_record c bytes off;
    }

abbrev pub wrote_direct : RtspClient → List ℕ → Wrote → RtspClient
wrote_direct c bytes w = record c { err_code = w.err; wire = c.wire ++ between bytes 0 w.idx }

pub sent_direct : RtspClient → List ℕ → Wrote → SentData
sent_direct c bytes w = elim w.result [
  | rtsp_eintr ↦ enqueue_data (wrote_direct c bytes w) bytes w.idx
  | result ↦ record { result = result; id = some 0; freed = true; client = wrote_direct c bytes w }
]

abbrev pub nothing_waits : Option (List ℕ) → List RtspRec → Bool
nothing_waits none [] = true
nothing_waits none (r ∷ rs) = false
nothing_waits (some b) rs = false

pub write_data : List SendAnswer → RtspClient → List ℕ → SentData
write_data answers c bytes =
    if nothing_waits c.write_buffer c.output
    then sent_direct c bytes (write_bytes answers bytes 0 c.err_code)
    else enqueue_data c bytes 0

pub would_block : RtspClient → ℕ → Bool
would_block c size = ltb max_data_pending ((c.backlog + size) % 2 ^ 64)

-- The oldest record becomes the buffer; the backlog is raised to its size first when it is less.
pub take_rec : RtspRec → List RtspRec → RtspClient → RtspClient
take_rec rec rest c = record c {
  output = rest;
  write_buffer = some rec.data_bytes;
  write_off = 0;
  backlog =
      (if ltb c.backlog (length rec.data_bytes) then length rec.data_bytes else c.backlog)
      - length rec.data_bytes;
}

abbrev pub wrote_buffer : RtspClient → List ℕ → Wrote → RtspClient
wrote_buffer c buffer w = record c {
  write_off = w.idx;
  err_code = w.err;
  wire = c.wire ++ between buffer c.write_off w.idx;
}

pub data WriteEnd : Type 0 where
  all_written : WriteEnd
  socket_full : WriteEnd
  socket_failed : WriteEnd

pub record ClientWrote : Type 0 where
  pub ended : WriteEnd
  pub client : RtspClient

-- How a round that did not write all of the buffer ends.
abbrev pub unfinished : RtspResult → RtspClient → ClientWrote
unfinished rtsp_eintr c = record { ended = socket_full; client = c }
unfinished result c = record { ended = socket_failed; client = c }

-- One round with a buffer, and the next ones when all of it was written.
abbrev pub after_round : RtspResult → RtspClient → ClientWrote → ClientWrote
after_round rtsp_ok c next = next
after_round result c next = unfinished result c

-- The rounds of `rtsp_client_write` that find no buffer, up to its return without the event's flag.
pub drain : List RtspRec → List SendAnswer → RtspClient → ClientWrote
drain [] answers c = record { ended = all_written; client = c }
drain (rec ∷ rest) answers c =
    let w = write_bytes answers rec.data_bytes 0 c.err_code in
    let c1 = wrote_buffer (take_rec rec rest c) rec.data_bytes w in
    let next = drain rest w.answers (record c1 { write_buffer = none }) in
    after_round w.result c1 next

-- The first round, with the buffer that is there.
abbrev pub rounds_from : List SendAnswer → RtspClient → Option (List ℕ) → ClientWrote
rounds_from answers c none = drain c.output answers c
rounds_from answers c (some buffer) =
    let w = write_bytes answers buffer c.write_off c.err_code in
    let c1 = wrote_buffer c buffer w in
    let next = drain c1.output w.answers (record c1 { write_buffer = none }) in
    after_round w.result c1 next

pub write_rounds : List SendAnswer → RtspClient → ClientWrote
write_rounds answers c = rounds_from answers c c.write_buffer

-- What `rtsp_client_write` does behind its rounds, without the lock; `killed` stands for
-- `rtsp_client_kill`, whose sessions are not modelled. False when the event is to be dropped.
pub close_write : ClientWrote → Bool × RtspClient
close_write r = elim r.ended [
  | all_written ↦ (true, record r.client { wait_write = false })
  | socket_full ↦ (true, r.client)
  | socket_failed ↦ (false, record r.client { killed = true })
]

pub client_write : List SendAnswer → RtspClient → Bool × RtspClient
client_write answers c = close_write (write_rounds answers c)
