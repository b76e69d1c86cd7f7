-- ===== src/Provisioning/Service/Body.antt =====
-- The loop that receives the body of a request.
use industrial_edge_monitor.Base.{
  ℕ, zero, suc, ◌+◌, ◌-◌, ◌≤◌, ◌<◌, ◌≡◌, ◌≢◌, ap, sym, subst, arith, some, List, [], ◌++◌, length,
  length-append, Option-cases, inl, inr,
}
use industrial_edge_monitor.Provisioning.Service.{Http, Service, ◌>>=◌, pure, call}
use industrial_edge_monitor.Provisioning.Service.Requests.{
  Received, complete, failed, out_of_fuel, receive_loop,
}

-- A body of that size, or the failure of a call.
pub record IsBody (size : ℕ) (received : Received) : Type 0 where
  pub ended : received ≢ out_of_fuel
  pub filled : (body : List ℕ) → received ≡ complete body → length body ≡ size

-- What `httpd_req_recv` is documented to do: it receives at least one byte, and no more than asked.
pub record Receives (http : Http) : Type 0 where
  pub within :
      (n size : ℕ) (bytes : List ℕ)
      → 0 < size
      → http.receive n size ≡ some bytes
      → (1 ≤ length bytes) × (length bytes ≤ size)

failed-IsBody : (size : ℕ) → IsBody size failed
failed-IsBody size = record { ended = cc; filled = λ body e. cc }

module _ {W : Type 0} {http : Http} (ok : Receives http) where
  -- Each round receives at least a byte, so the number of bytes that are left is enough fuel.
  receive_loop-IsBody :
      (fuel : ℕ) (body : List ℕ) (left : ℕ) (s : Service W)
      → left ≤ fuel
      → IsBody (length body + left) (receive_loop http fuel body left s).0
  unfolding receive_loop ◌>>=◌ call pure
  receive_loop-IsBody fuel body zero s enough = record {
    ended = cc;
    filled = λ b e. let same : body ≡ b = cc in omega (arith, ap length same);
  }
  receive_loop-IsBody zero body (suc left) s enough = absurd (omega arith)
  receive_loop-IsBody (suc fuel) body (suc left) s enough =
      elim (Option-cases (http.receive s.calls (suc left))) [
        | inl none_e ↦ rw none_e (failed-IsBody (length body + suc left))
        | inr (bytes, some_e) ↦
            let (some_bytes, fits) = ok.within s.calls (suc left) bytes (omega arith) some_e in
            let longer : length (body ++ bytes) + (suc left - length bytes)
                ≡ length body + suc left =
              omega (arith, length-append body bytes) in
            let rest =
              receive_loop-IsBody fuel (body ++ bytes) (suc left - length bytes)
                (record s { calls = s.calls + 1 }) (omega arith) in
            rw (some_e, sym longer) rest
      ]

  -- Receiving a body ends, whatever its size, and where it does not fail the body has all of the
  -- bytes that the request announces.
  pub receive_loop_lem :
      (size : ℕ) (s : Service W) → IsBody size (receive_loop http size [] size s).0
  receive_loop_lem size s =
      subst (λ n. IsBody n (receive_loop http size [] size s).0) (omega arith)
        (receive_loop-IsBody size [] size s (omega arith))
