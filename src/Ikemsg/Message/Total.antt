-- ===== src/Ikemsg/Message/Total.antt =====
-- Parse and ParsePayloads on any input whatever.
use go_ipsec.Common.{
  ℕ, ◌≤◌, ◌<◌, ◌≡◌, Bool, Option, none, some, List, [], ◌∷◌, ◌++◌, length, All, All-append, arith,
  ok, Advances, Ensures, Ensures-fail_if_lt, Ensures-fail_if, Ensures-byte_at, Ensures-uint16_at,
  Ensures-uint32_at, Ensures-uint64_at, Ensures-slice, Ensures-slice_from, Ensures-bind,
  Ensures-Returns, Ensures-ok, Returns, yields, drain_all-Ensures, word32,
}
use go_ipsec.Ikemsg.Simple.RoundTrip.{
  ke-Ensures, nonce-Ensures, id-Ensures, auth-Ensures, cert-Ensures,
}
use go_ipsec.Ikemsg.Notify.RoundTrip.{notify-Ensures}
use go_ipsec.Ikemsg.Notify.DeleteRound.{delete-Ensures}
use go_ipsec.Ikemsg.Ts.Total.{HasWidth, ts_body-Ensures}
use go_ipsec.Ikemsg.Config.RoundTrip.{config-Ensures}
use go_ipsec.Ikemsg.Sa.Total.{unmarshal_sa-Ensures}
use go_ipsec.Ikemsg.Message.{
  Payload, sa, ke, idi, idr, cert, cert_request, auth, nonce, notify, delete, vendor_id, tsi, tsr,
  encrypted, config, eap, Message, set_inner_first, unmarshal_body, parse_known, parse_payload,
  parse_chain, parse_payloads, parse,
}

-- What a decoder guarantees of the payload that it yields.
abbrev pub IsDecoded : Payload → Type 0
IsDecoded (nonce bytes) = (16 ≤ length bytes) × (length bytes ≤ 256)
IsDecoded (tsi tss) = All HasWidth tss × (0 < length tss)
IsDecoded (tsr tss) = All HasWidth tss × (0 < length tss)
IsDecoded (delete d) = (w : ℕ) × All (λ spi. length spi ≡ w) d.spis
IsDecoded _ = Unit {0}

unmarshal_body-Ensures : (p : Payload) (body : List ℕ) → Ensures IsDecoded (unmarshal_body p body)
unfolding unmarshal_body
unmarshal_body-Ensures (sa ps) body =
    Ensures-bind _ _ (unmarshal_sa-Ensures ps body) λ _ _. yields tt
unmarshal_body-Ensures (ke _) body = Ensures-bind _ _ (ke-Ensures body) λ _ _. yields tt
unmarshal_body-Ensures (idi _) body = Ensures-bind _ _ (id-Ensures body) λ _ _. yields tt
unmarshal_body-Ensures (idr _) body = Ensures-bind _ _ (id-Ensures body) λ _ _. yields tt
unmarshal_body-Ensures (cert _) body = Ensures-bind _ _ (cert-Ensures _ body) λ _ _. yields tt
unmarshal_body-Ensures (cert_request _) body =
    Ensures-bind _ _ (cert-Ensures _ body) λ _ _. yields tt
unmarshal_body-Ensures (auth _) body = Ensures-bind _ _ (auth-Ensures body) λ _ _. yields tt
unmarshal_body-Ensures (nonce _) body = Ensures-bind _ _ (nonce-Ensures body) λ _ h. yields h
unmarshal_body-Ensures (notify _) body = Ensures-bind _ _ (notify-Ensures body) λ _ _. yields tt
unmarshal_body-Ensures (delete _) body = Ensures-bind _ _ (delete-Ensures body) λ _ h. yields h
unmarshal_body-Ensures (vendor_id _) body = yields tt
unmarshal_body-Ensures (tsi _) body = Ensures-bind _ _ (ts_body-Ensures body) λ _ h. yields h
unmarshal_body-Ensures (tsr _) body = Ensures-bind _ _ (ts_body-Ensures body) λ _ h. yields h
unmarshal_body-Ensures (encrypted _ _) body = yields tt
unmarshal_body-Ensures (config c) body =
    Ensures-bind _ _ (config-Ensures c.attributes body) λ _ _. yields tt
unmarshal_body-Ensures (eap _) body = yields tt

-- Rounds of the chain loop keep what appending a decoded payload keeps.
module _ (Q : List Payload → Type 0)
    (grow : (out : List Payload) (p : Payload) → Q out → IsDecoded p → Q (out ++ p ∷ [])) where
  parse_known-Ensures :
      (o : Option Payload) (critical : Bool) (following plen : ℕ) (out : List Payload)
      (body : List ℕ)
      → 4 ≤ plen
      → plen ≤ length body
      → Q out
      → Ensures
          (λ r. (length r.1 < length body) × Q r.0.out)
          (parse_known o critical following plen out body)
  unfolding parse_known
  parse_known-Ensures none critical following plen out body lo hi h =
      Ensures-fail_if _ _ _ λ _. Ensures-slice_from _ _ _ hi λ rest e. yields (omega arith, h)
  parse_known-Ensures (some p) critical following plen out body lo hi h =
      Ensures-slice _ _ _ _ lo hi λ bytes _.
        Ensures-bind _ _ (unmarshal_body-Ensures (set_inner_first following p) bytes)
          λ p' d. Ensures-slice_from _ _ _ hi λ rest e. yields (omega arith, grow out p' h d)

  parse_payload-keeps : Advances (λ s. Q s.out) parse_payload
  unfolding parse_payload
  parse_payload-keeps s body h d = Ensures-fail_if_lt _ _ _ _ λ p.
      Ensures-byte_at _ _ _ (omega arith) λ following _.
        Ensures-byte_at _ _ _ (omega arith) λ flags _.
          Ensures-uint16_at _ _ _ (omega arith) λ plen _. Ensures-fail_if_lt _ _ _ _ λ lo.
            Ensures-fail_if_lt _ _ _ _
              λ hi. parse_known-Ensures _ _ following plen s.out body lo hi d

pub parse_payload-Advances : Advances (λ _. Unit {0}) parse_payload
parse_payload-Advances = parse_payload-keeps (λ _. Unit {0}) (λ _ _ _ _. tt)

pub parse_chain-Ensures :
    (first : ℕ) (body : List ℕ) → Ensures (All IsDecoded) (parse_chain first body)
unfolding parse_chain
parse_chain-Ensures first body =
    Ensures-bind _ _
      (drain_all-Ensures
        (parse_payload-keeps (All IsDecoded)
          (λ out p h d. All-append IsDecoded out (p ∷ []) h (d, tt)))
        (record { next = first; out = [] }) body tt)
      λ s h. yields h

-- On every body, whatever type is announced for its first payload, ParsePayloads returns.
pub parse_payloads-Returns : (first : ℕ) (body : List ℕ) → Returns (parse_payloads first body)
unfolding parse_payloads
parse_payloads-Returns first body = Ensures-Returns (parse_chain-Ensures first body)

-- A parsed message is the whole datagram, and each of its payloads is as its decoder guarantees.
pub record IsParsed (raw : List ℕ) (m : Message) : Type 0 where
  pub at_least_header : 28 ≤ length raw
  pub exact_length : length raw ≡ word32 raw 24
  pub decoded : All IsDecoded m.payloads

parse-Ensures : (raw : List ℕ) → Ensures (IsParsed raw) (parse raw)
unfolding parse
parse-Ensures raw = Ensures-fail_if_lt _ _ _ _ λ p. Ensures-uint32_at _ _ _ (omega arith) λ len e.
    Ensures-fail_if_lt _ _ _ _ λ _. Ensures-fail_if _ _ _ λ same.
      Ensures-uint64_at _ _ _ (omega arith) λ initiator_spi _.
        Ensures-uint64_at _ _ _ (omega arith) λ responder_spi _.
          Ensures-byte_at _ _ _ (omega arith) λ exchange _.
            Ensures-byte_at _ _ _ (omega arith) λ flags _.
              Ensures-uint32_at _ _ _ (omega arith) λ message_id _.
                Ensures-byte_at _ _ _ (omega arith) λ first _. Ensures-slice_from _ _ _ p λ chain _.
                  Ensures-bind _ _ (parse_chain-Ensures first chain) λ payloads h.
                    yields
                      (record { at_least_header = p; exact_length = ground arith; decoded = h })

-- On every datagram, of any length and content, Parse returns a message or an error: no index and no
-- slice is out of range, and no loop runs on.
pub parse-Returns : (raw : List ℕ) → Returns (parse raw)
parse-Returns raw = Ensures-Returns (parse-Ensures raw)

-- Of a message that Parse yields, the datagram has at least the 28 bytes of the header and exactly the
-- length that the header states; each nonce has 16 to 256 bytes, each traffic selector payload has a
-- selector and only selectors of a supported type with addresses of its width, and the SPIs of each
-- Delete have one width.
pub parse-IsParsed : (raw : List ℕ) (m : Message) → parse raw ≡ ok m → IsParsed raw m
parse-IsParsed raw m e = Ensures-ok (parse-Ensures raw) e
