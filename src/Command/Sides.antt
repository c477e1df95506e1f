-- ===== src/Command/Sides.antt =====
-- command.rs, read2_or_timeout: the table of polled descriptors is not seen.
use multi_fuzz_benchmarks.Prelude.{
  ℕ, ◌≡◌, refl, Bool, true, false, ◌||◌, Option, none, some, List, [], ◌∷◌, ◌++◌,
}
use multi_fuzz_benchmarks.Prelude.Outcome.{Result, ok, err}
use multi_fuzz_benchmarks.Rpc.{Bytes}
use multi_fuzz_benchmarks.Command.{
  Pipe, out_pipe, err_pipe, Read, eof, would_block, broken, Poll, expired, interrupted, failed_poll,
  ready, Reader, new_reader, read_ready, poll, handle_err, handle_out, read_err, read_out, revents,
  Outcome, returned, failed, running, read2_or_timeout,
}

-- One output: what was read of it, and whether it is open.
pub record Side : Type 0 where
  pub bytes : Bytes
  pub is_open : Bool

module _ {Error : Type 0} where
  -- An output is read exactly while it is open and when it is ready.
  unfoldable pub read_side : Bool → Read Error → Side → Result Error Side
  read_side false read self = ok self
  read_side true read self = elim self.is_open [
    | false ↦ ok self
    | true ↦ elim read [
      | eof bytes ↦ ok (record { bytes = self.bytes ++ bytes; is_open = false })
      | would_block bytes ↦ ok (record { bytes = self.bytes ++ bytes; is_open = true })
      | broken e ↦ err e
    ]
  ]

  -- The loop with the two outputs on their own, until both are closed.
  unfoldable pub read_sides : List (Poll Error) → Side → Side → Outcome Error
  unfolding read_side
  read_sides [] out errors = elim (out.is_open || errors.is_open) [
    | false ↦ returned out.bytes errors.bytes false
    | true ↦ running
  ]
  read_sides (p ∷ polls) out errors = elim (out.is_open || errors.is_open) [
    | false ↦ returned out.bytes errors.bytes false
    | true ↦ elim p [
      | expired ↦ returned out.bytes errors.bytes true
      | interrupted ↦ read_sides polls out errors
      | failed_poll e ↦ failed e
      | ready out_ready err_ready out_read err_read ↦ elim (read_side err_ready err_read errors) [
        | err e ↦ failed e
        | ok errors' ↦ elim (read_side out_ready out_read out) [
          | err e ↦ failed e
          | ok out' ↦ read_sides polls out' errors'
        ]
      ]
    ]
  ]

abbrev first_fd : Bool → Pipe
first_fd true = out_pipe
first_fd false = err_pipe

abbrev count_open : Bool → Bool → ℕ
count_open true true = 2
count_open true false = 1
count_open false true = 1
count_open false false = 0

abbrev out_position : Bool → Option ℕ
out_position true = some 0
out_position false = none

abbrev err_position : Bool → Bool → Option ℕ
err_position out_open false = none
err_position true true = some 1
err_position false true = some 0

-- The reader of two outputs: only what `poll` has left in `revents` is free.
abbrev reader_of : Side → Side → Bool → Bool → Reader
reader_of out errors r0 r1 = record {
  out = out.bytes;
  err_out = errors.bytes;
  fd0 = first_fd out.is_open;
  fd1 = err_pipe;
  revents0 = r0;
  revents1 = r1;
  nfds = count_open out.is_open errors.is_open;
  outfd = out_position out.is_open;
  errfd = err_position out.is_open errors.is_open;
}

module _ {Error : Type 0} where
  -- What an iteration comes to, for the reader and for the outputs on their own.
  data Agrees : Result Error Reader → Result Error Side → Result Error Side → Type 0 where
    both_err : (e : Error) {out : Result Error Side} → Agrees (err e) out (err e)
    both_out : (e : Error) (errors : Side) → Agrees (err e) (err e) (ok errors)
    both_ok :
        (out errors : Side) (r0 r1 : Bool)
        → Agrees (ok (reader_of out errors r0 r1)) (ok out) (ok errors)

  read_ready-Agrees :
      (out_open err_open out_ready err_ready : Bool) (out_read err_read : Read Error)
      (out errors : Bytes) (r0 r1 : Bool)
      → Agrees
          (read_ready out_ready err_ready out_read err_read (
            reader_of
              (record { bytes = out; is_open = out_open })
              (record { bytes = errors; is_open = err_open })
              r0
              r1))
          (read_side out_ready out_read (record { bytes = out; is_open = out_open }))
          (read_side err_ready err_read (record { bytes = errors; is_open = err_open }))
  unfolding read_ready read_side poll handle_err handle_out read_err read_out revents
  read_ready-Agrees true true true true (eof bo) (eof be) out errors r0 r1 = both_ok _ _ _ _
  read_ready-Agrees true true true true (would_block bo) (eof be) out errors r0 r1 = both_ok _ _ _ _
  read_ready-Agrees true true true true (broken e2) (eof be) out errors r0 r1 = both_out e2 _
  read_ready-Agrees true true true true (eof bo) (would_block be) out errors r0 r1 = both_ok _ _ _ _
  read_ready-Agrees true true true true (would_block bo) (would_block be) out errors r0 r1 =
      both_ok _ _ _ _
  read_ready-Agrees true true true true (broken e2) (would_block be) out errors r0 r1 =
      both_out e2 _
  read_ready-Agrees true true true true read_o (broken e) out errors r0 r1 = both_err e
  read_ready-Agrees true true true false (eof bo) read_e out errors r0 r1 = both_ok _ _ _ _
  read_ready-Agrees true true true false (would_block bo) read_e out errors r0 r1 = both_ok _ _ _ _
  read_ready-Agrees true true true false (broken e2) read_e out errors r0 r1 = both_out e2 _
  read_ready-Agrees true true false true read_o (eof be) out errors r0 r1 = both_ok _ _ _ _
  read_ready-Agrees true true false true read_o (would_block be) out errors r0 r1 = both_ok _ _ _ _
  read_ready-Agrees true true false true read_o (broken e) out errors r0 r1 = both_err e
  read_ready-Agrees true true false false read_o read_e out errors r0 r1 = both_ok _ _ _ _
  read_ready-Agrees true false true true (eof bo) read_e out errors r0 r1 = both_ok _ _ _ _
  read_ready-Agrees true false true true (would_block bo) read_e out errors r0 r1 = both_ok _ _ _ _
  read_ready-Agrees true false true true (broken e2) read_e out errors r0 r1 = both_out e2 _
  read_ready-Agrees true false true false (eof bo) read_e out errors r0 r1 = both_ok _ _ _ _
  read_ready-Agrees true false true false (would_block bo) read_e out errors r0 r1 = both_ok _ _ _ _
  read_ready-Agrees true false true false (broken e2) read_e out errors r0 r1 = both_out e2 _
  read_ready-Agrees true false false true read_o read_e out errors r0 r1 = both_ok _ _ _ _
  read_ready-Agrees true false false false read_o read_e out errors r0 r1 = both_ok _ _ _ _
  read_ready-Agrees false true true true read_o (eof be) out errors r0 r1 = both_ok _ _ _ _
  read_ready-Agrees false true true true read_o (would_block be) out errors r0 r1 = both_ok _ _ _ _
  read_ready-Agrees false true true true read_o (broken e) out errors r0 r1 = both_err e
  read_ready-Agrees false true true false read_o read_e out errors r0 r1 = both_ok _ _ _ _
  read_ready-Agrees false true false true read_o (eof be) out errors r0 r1 = both_ok _ _ _ _
  read_ready-Agrees false true false true read_o (would_block be) out errors r0 r1 = both_ok _ _ _ _
  read_ready-Agrees false true false true read_o (broken e) out errors r0 r1 = both_err e
  read_ready-Agrees false true false false read_o read_e out errors r0 r1 = both_ok _ _ _ _
  read_ready-Agrees false false true true read_o read_e out errors r0 r1 = both_ok _ _ _ _
  read_ready-Agrees false false true false read_o read_e out errors r0 r1 = both_ok _ _ _ _
  read_ready-Agrees false false false true read_o read_e out errors r0 r1 = both_ok _ _ _ _
  read_ready-Agrees false false false false read_o read_e out errors r0 r1 = both_ok _ _ _ _

  after_ready :
      (polls : List (Poll Error)) {read : Result Error Reader} {read_o read_e : Result Error Side}
      → Agrees read read_o read_e
      → ((out errors : Side) (r0 r1 : Bool)
          → read2_or_timeout polls (reader_of out errors r0 r1) ≡ read_sides polls out errors)
      → elim read as (λ _. Outcome Error) [
        | ok next ↦ read2_or_timeout polls next
        | err e ↦ failed e
      ]
        ≡ elim read_e as (λ _. Outcome Error) [
          | err e ↦ failed e
          | ok errors ↦ elim read_o [ err e ↦ failed e | ok out ↦ read_sides polls out errors ]
        ]
  after_ready polls (both_err e) h = refl
  after_ready polls (both_out e errors) h = refl
  after_ready polls (both_ok out errors r0 r1) h = h out errors r0 r1

  read2_or_timeout-reader_of :
      (polls : List (Poll Error)) (out_open err_open : Bool) (out errors : Bytes) (r0 r1 : Bool)
      → read2_or_timeout polls (
          reader_of
            (record { bytes = out; is_open = out_open })
            (record { bytes = errors; is_open = err_open })
            r0
            r1)
        ≡ read_sides polls
            (record { bytes = out; is_open = out_open })
            (record { bytes = errors; is_open = err_open })
  unfolding read2_or_timeout read_sides
  read2_or_timeout-reader_of [] true true out errors r0 r1 = refl
  read2_or_timeout-reader_of [] true false out errors r0 r1 = refl
  read2_or_timeout-reader_of [] false true out errors r0 r1 = refl
  read2_or_timeout-reader_of [] false false out errors r0 r1 = refl
  read2_or_timeout-reader_of (p ∷ polls) false false out errors r0 r1 = refl
  read2_or_timeout-reader_of (expired ∷ polls) true true out errors r0 r1 = refl
  read2_or_timeout-reader_of (interrupted ∷ polls) true true out errors r0 r1 =
      read2_or_timeout-reader_of polls true true out errors r0 r1
  read2_or_timeout-reader_of (failed_poll e ∷ polls) true true out errors r0 r1 = refl
  read2_or_timeout-reader_of (ready o e read_o read_e ∷ polls) true true out errors r0 r1 =
      after_ready polls (read_ready-Agrees true true o e read_o read_e out errors r0 r1)
        (λ o e. read2_or_timeout-reader_of polls o.is_open e.is_open o.bytes e.bytes)
  read2_or_timeout-reader_of (expired ∷ polls) true false out errors r0 r1 = refl
  read2_or_timeout-reader_of (interrupted ∷ polls) true false out errors r0 r1 =
      read2_or_timeout-reader_of polls true false out errors r0 r1
  read2_or_timeout-reader_of (failed_poll e ∷ polls) true false out errors r0 r1 = refl
  read2_or_timeout-reader_of (ready o e read_o read_e ∷ polls) true false out errors r0 r1 =
      after_ready polls (read_ready-Agrees true false o e read_o read_e out errors r0 r1)
        (λ o e. read2_or_timeout-reader_of polls o.is_open e.is_open o.bytes e.bytes)
  read2_or_timeout-reader_of (expired ∷ polls) false true out errors r0 r1 = refl
  read2_or_timeout-reader_of (interrupted ∷ polls) false true out errors r0 r1 =
      read2_or_timeout-reader_of polls false true out errors r0 r1
  read2_or_timeout-reader_of (failed_poll e ∷ polls) false true out errors r0 r1 = refl
  read2_or_timeout-reader_of (ready o e read_o read_e ∷ polls) false true out errors r0 r1 =
      after_ready polls (read_ready-Agrees false true o e read_o read_e out errors r0 r1)
        (λ o e. read2_or_timeout-reader_of polls o.is_open e.is_open o.bytes e.bytes)

  -- Whatever the calls of `poll` and of `read` find: the loop over the table of descriptors returns
  -- what two outputs give that are read on their own, each exactly while it is open and when it is
  -- ready, until both are at their end, the time is over or a call fails.
  pub read2_or_timeout-read_sides :
      (polls : List (Poll Error))
      → read2_or_timeout polls new_reader
        ≡ read_sides polls
            (record { bytes = []; is_open = true })
            (record { bytes = []; is_open = true })
  read2_or_timeout-read_sides polls = read2_or_timeout-reader_of polls true true [] [] false false
