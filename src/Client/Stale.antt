-- ===== src/Client/Stale.antt =====
-- Responses are matched to requests by number, whatever an earlier timeout left in the stream.
use multi_fuzz_benchmarks.Prelude.{
  ℕ, ◌+◌, ◌≤◌, ◌<◌, ◌≡◌, refl, ap, ◌∙◌, Bool, true, false, List, [], ◌∷◌, ◌++◌, map, arith,
  if◌then◌else◌, Bool-cases, inl, inr, ltb, ltb→lt, lt→ltb, nat_beq,
}
use multi_fuzz_benchmarks.Prelude.Outcome.{Result, ok, err}
use multi_fuzz_benchmarks.Client.{
  IpcWrapper, Read, message, failed, ClientError, read_failed, unexpected_response, RpcAgent,
  await_response, send_request,
}

module _ {ℓ} {Resp : Type ℓ} where
  -- Messages that answer requests before number `n`.
  abbrev pub AllStale : ℕ → List (IpcWrapper Resp) → Type 0
  AllStale n [] = Unit
  AllStale n (m ∷ ms) = (m.id < n) × AllStale n ms

  pub AllStale-append :
      (n : ℕ) (ms : List (IpcWrapper Resp)) (m : IpcWrapper Resp)
      → AllStale n ms
      → m.id ≤ n
      → AllStale (n + 1) (ms ++ m ∷ [])
  AllStale-append n [] m h k = omega arith
  AllStale-append n (x ∷ ms) m h k = (omega arith, AllStale-append n ms m h.1 k)

  -- Stale messages are passed over.
  pub await_response-append :
      (n : ℕ) (stale : List (IpcWrapper Resp)) (rest : List (Read Resp))
      → AllStale n stale
      → await_response n (map message stale ++ rest) ≡ await_response n rest
  unfolding await_response
  await_response-append n [] rest h = refl
  await_response-append n (m ∷ ms) rest h =
      rw (lt→ltb m.id n h.0) (await_response-append n ms rest h.1)

  await_response_own :
      (n : ℕ) (body : Resp) (rest : List (Read Resp))
      → await_response n (message (record { id = n; body = body }) ∷ rest) ≡ (ok body, rest)
  unfolding await_response
  await_response_own n body rest = ground arith

  head_matches :
      (n : ℕ) (m : IpcWrapper Resp) (r : List (Read Resp)) (body : Resp) (rest : List (Read Resp))
      → ltb m.id n ≡ false
      → ◌≡◌ {A = Result ClientError Resp × List (Read Resp)}
          (if nat_beq m.id n then (ok m.body, r) else (err (unexpected_response n m.id), r))
          (ok body, rest)
      → message m ∷ r ≡ message (record { id = n; body = body }) ∷ rest
  head_matches n m r body rest l h = ground arith

  -- A result for request `n` is the body of the first message that is not stale, whose number is
  -- `n`, and all that stands behind that message stays in the stream.
  pub await_response-eq-ok :
      (n : ℕ) (reader : List (Read Resp)) (body : Resp) (rest : List (Read Resp))
      → await_response n reader ≡ (ok body, rest)
      → (stale : List (IpcWrapper Resp)) × AllStale n stale
        × (reader ≡ map message stale ++ message (record { id = n; body = body }) ∷ rest)
  unfolding await_response
  await_response-eq-ok n [] body rest h = absurd (ground arith)
  await_response-eq-ok n (failed ∷ r) body rest h = absurd (ground arith)
  await_response-eq-ok n (message m ∷ r) body rest h = elim (Bool-cases (ltb m.id n)) [
    | inl l ↦
        let (ms, stale, e) = await_response-eq-ok n r body rest (rw l at h) in
        (m ∷ ms, (ltb→lt m.id n l, stale), ap (λ t. message m ∷ t) e)
    | inr l ↦ ([], tt, head_matches n m r body rest l (rw l at h))
  ]

-- What the agent and the connection do with one request: the response is there in time, or comes
-- after the read has timed out.
module _ {ℓ} {Req Resp : Type ℓ} (serve : Req → Resp) where
  abbrev pub answer : ℕ → Req → IpcWrapper Resp
  answer n req = record { id = n; body = serve req }

  -- The stream that the client reads from for request `req`, and what a late response adds.
  abbrev pub stream : Bool → ℕ → Req → List (Read Resp) → List (Read Resp)
  stream in_time n req pending =
      pending ++ (if in_time then message (answer n req) else failed) ∷ []

  abbrev pub late : Bool → ℕ → Req → List (Read Resp)
  late in_time n req = if in_time then [] else message (answer n req) ∷ []

  abbrev pub exchange : RpcAgent Req Resp → Req × Bool → Result ClientError Resp × RpcAgent Req Resp
  exchange self (req, in_time) =
      let n = self.next_request in
      let (result, self') =
        send_request (record self { reader = stream in_time n req self.reader }) true req in
      (result, record self' { reader = self'.reader ++ late in_time n req })

  pub session : RpcAgent Req Resp → List (Req × Bool) → List (Result ClientError Resp)
  session self [] = []
  session self (r ∷ rs) = let (result, self') = exchange self r in result ∷ session self' rs

  abbrev pub expected : Req × Bool → Result ClientError Resp
  expected (req, in_time) = if in_time then ok (serve req) else err read_failed

  -- The stream holds only messages for earlier requests.
  pub record InSync (self : RpcAgent Req Resp) : Type ℓ where
    pub stale : List (IpcWrapper Resp)
    pub pending : self.reader ≡ map message stale
    pub earlier : AllStale self.next_request stale

  exchange-InSync :
      (self : RpcAgent Req Resp) (r : Req × Bool)
      → InSync self
      → ((exchange self r).0 ≡ expected r) × InSync (exchange self r).1
  unfolding send_request
  exchange-InSync self (req, true) s =
      let run : await_response self.next_request (stream true self.next_request req self.reader)
          ≡ (ok (serve req), []) =
        rw s.pending (
          await_response-append self.next_request s.stale _ s.earlier
          ∙ await_response_own self.next_request (serve req) []) in
      rw run (refl, record { stale = []; pending = refl; earlier = tt })
  exchange-InSync self (req, false) s =
      let run : await_response self.next_request (stream false self.next_request req self.reader)
          ≡ (err read_failed, []) =
        rw s.pending (
          await_response-append self.next_request s.stale _ s.earlier
          ∙ (unfold await_response in refl)) in
      rw run (
        refl,
        record { stale = answer self.next_request req ∷ []; pending = refl; earlier = omega arith },
      )

  -- On a connection whose unread messages all answer earlier requests, and over any sequence of
  -- requests, of which some are answered only after their read has timed out,
  -- each request gets the answer to itself or the read error, and never the answer to another.
  pub session-expected :
      (self : RpcAgent Req Resp) (rs : List (Req × Bool))
      → InSync self
      → session self rs ≡ map expected rs
  unfolding session
  session-expected self [] s = refl
  session-expected self (r ∷ rs) s =
      let (now, next) = exchange-InSync self r s in
      rw now (ap (λ l. expected r ∷ l) (session-expected (exchange self r).1 rs next))
