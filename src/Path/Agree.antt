-- ===== src/Path/Agree.antt =====
-- core/stream_path_protocol.go: writeStreamReadyV2WithNonce on the server and ReadStreamReadyV2 on the
-- client.
use smp3_multipath_kit_publi.Path.{make_path_auth, StreamPathAuth}
use smp3_multipath_kit_publi.Path.Writer.{
  write_protocol_full, IsWriter, write_protocol_full-Delivered, Delivered,
}
use smp3_multipath_kit_publi.Path.Ready.{encode_ready, ready_of, read_ready}
use smp3_multipath_kit_publi.Wire.Hello.{IsHello, Hello}
use smp3_multipath_kit_publi.Path.Ready.RoundTrip.{read_ready-encode}
use smp3_multipath_kit_publi.Base.{
  ◌<◌, ◌≡◌, List, none, Option, ◌++◌, some, inr, ℕ, arith, length, inl, ◌^◌, ap, ◌∙◌, sym,
  some_injective,
}
use smp3_multipath_kit_publi.Wire.Result.{ok, Result, Error, Result-cases, err}

module _ {W : Type 0} (write : W → List ℕ → W × ℕ × Option Error)
    (mac : List ℕ → List ℕ → List ℕ) where
  -- The writing and the keys, where the bytes are encoded.
  unfoldable pub send_ready :
      W → Hello → ℕ → List ℕ → List ℕ → List ℕ → Option (W × Result StreamPathAuth)
  send_ready w hello selected server_nonce password wire =
      elim (write_protocol_full write (length wire) w wire) [
        | none ↦ none
        | some (after, err why) ↦ some (after, err why)
        | some (after, ok _) ↦
            some (after, make_path_auth mac hello (ready_of hello selected server_nonce) password)
      ]

  unfoldable pub write_ready_with_nonce :
      W → Hello → ℕ → List ℕ → List ℕ → Option (W × Result StreamPathAuth)
  write_ready_with_nonce w hello selected server_nonce password =
      elim (encode_ready mac hello selected server_nonce password) [
        | err why ↦ some (w, err why)
        | ok wire ↦ send_ready w hello selected server_nonce password wire
      ]

  -- A READY on the carrier, and the keys of the client that reads it.
  pub record ClientAgrees (hello : Hello) (selected : ℕ) (nonce password : List ℕ)
      (auth : StreamPathAuth) (before after : List ℕ) : Type 0 where
    pub wire : List ℕ
    pub sent : after ≡ before ++ wire
    pub reads :
        (rest : List ℕ)
        → read_ready mac (wire ++ rest) hello password
          ≡ ok (ready_of hello selected nonce, auth, rest)

  module _ (mac_size : (key text : List ℕ) → length (mac key text) ≡ 32) (sent : W → List ℕ)
      (contract : IsWriter write sent) where
    -- The two ends of the write.
    send-outcome :
        (w : W) (hello : Hello) (selected : ℕ) (nonce password wire : List ℕ)
        (written : W × Result (Unit {0})) {after : W} {auth : StreamPathAuth}
        → write_protocol_full write (length wire) w wire ≡ some written
        → Delivered sent w wire written
        → send_ready w hello selected nonce password wire ≡ some (after, ok auth)
        → (sent after ≡ sent w ++ wire)
          × (make_path_auth mac hello (ready_of hello selected nonce) password ≡ ok auth)
    unfolding send_ready
    send-outcome w hello selected nonce password wire (out, err why) full d e =
        cc (rw (full, send_ready) at e)
    send-outcome w hello selected nonce password wire (out, ok _) full d e = elim d.complete [
      | inl (_, all) ↦
          let same = some_injective (rw (full, send_ready) at e) in
          (ap (λ p. sent p.0) (sym same) ∙ d.out ∙ ap (◌++◌ (sent w)) all, ap (λ p. p.1) same)
      | inr (why, failed) ↦ cc failed
    ]

    send→facts :
        (w : W) (hello : Hello) (selected : ℕ) (nonce password wire : List ℕ) {after : W}
        {auth : StreamPathAuth}
        → send_ready w hello selected nonce password wire ≡ some (after, ok auth)
        → (sent after ≡ sent w ++ wire)
          × (make_path_auth mac hello (ready_of hello selected nonce) password ≡ ok auth)
    send→facts w hello selected nonce password wire e =
        let (written, full, d) =
          write_protocol_full-Delivered write sent contract (length wire) w wire (omega arith) in
        send-outcome w hello selected nonce password wire written full d e

    -- When the server's READY is out, every client that offered this HELLO under the same password and
    -- nonce reads it back with the very keys that the server returns, and keeps what stands behind it.
    pub write_ready_with_nonce-ClientAgrees :
        (w : W) (hello : Hello) (selected : ℕ) (nonce password : List ℕ) {after : W}
        {auth : StreamPathAuth}
        → IsHello hello
        → selected < 2 ^ 32
        → length nonce ≡ 16
        → write_ready_with_nonce w hello selected nonce password ≡ some (after, ok auth)
        → ClientAgrees hello selected nonce password auth (sent w) (sent after)
    unfolding write_ready_with_nonce
    write_ready_with_nonce-ClientAgrees w hello selected nonce password {after} {auth} h fits sized
          e =
        elim (Result-cases (encode_ready mac hello selected nonce password)) [
          | inr (why, failed) ↦ cc (rw (failed, write_ready_with_nonce) at e)
          | inl (wire, encoded) ↦
              let (out, made) =
                send→facts w hello selected nonce password wire {after = after} {auth = auth}
                  (rw (encoded, write_ready_with_nonce) at e) in
              record {
                wire = wire;
                sent = out;
                reads = λ rest.
                    read_ready-encode mac mac_size hello selected nonce password rest h fits sized
                      encoded made;
              }
        ]
