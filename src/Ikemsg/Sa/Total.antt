-- ===== src/Ikemsg/Sa/Total.antt =====
-- The parsers of payloads_sa.go on any body.
use go_ipsec.Common.{
  ℕ, List, [], length, arith, Ensures, Any, ◌<◌, ◌≤◌, Advances, ensures_rules, Ensures-bind,
  drain_all-Ensures, Ensures-fail_if_lt, Ensures-uint16_at, Ensures-if, not, bit_and, ◌==◌,
  Ensures-byte_at, Ensures-slice, Ensures-slice_from, yields,
}
use go_ipsec.Ikemsg.Sa.{
  Transform, Proposal, tv_attr, tlv_attr, parse_attr, parse_transform, parse_proposal,
  parse_transforms, unmarshal_sa,
}

abbrev Shorter : {S : Type 0} → List ℕ → S × List ℕ → Type 0
Shorter body r = (length r.1 < length body) × Unit {0}

tv_attr-Ensures :
    (t : Transform) (af : ℕ) (attrs : List ℕ)
    → 4 ≤ length attrs
    → Ensures (Shorter attrs) (tv_attr t af attrs)
unfolding tv_attr
tv_attr-Ensures t af attrs h = search (ensures_rules, arith) depth 12

tlv_attr-Ensures :
    (t : Transform) (attrs : List ℕ) → 4 ≤ length attrs → Ensures (Shorter attrs) (tlv_attr t attrs)
unfolding tlv_attr
tlv_attr-Ensures t attrs h = search (ensures_rules, arith) depth 12

pub parse_attr-Advances : Advances Any parse_attr
unfolding parse_attr
parse_attr-Advances t attrs h _ = Ensures-fail_if_lt _ _ _ _ λ p.
    Ensures-uint16_at _ _ _ (omega arith) λ af _.
      Ensures-if (not (bit_and af 0x8000 == 0)) _ _ (λ _. tv_attr-Ensures t af attrs p)
        (λ _. tlv_attr-Ensures t attrs p)

pub parse_transform-Advances : Advances Any parse_transform
unfolding parse_transform
parse_transform-Advances out body h _ = Ensures-fail_if_lt _ _ _ _ λ p.
    Ensures-uint16_at _ _ _ (omega arith) λ tlen _. Ensures-fail_if_lt _ _ _ _ λ p1.
      Ensures-fail_if_lt _ _ _ _ λ p2. Ensures-byte_at _ _ _ (omega arith) λ type _.
        Ensures-uint16_at _ _ _ (omega arith) λ id _.
          Ensures-slice _ _ _ _ (omega arith) (omega arith) λ attrs _.
            Ensures-bind _ _ (drain_all-Ensures parse_attr-Advances _ attrs tt)
              λ t _. Ensures-slice_from _ _ _ (omega arith) λ rest e. yields (omega arith, tt)

parse_transforms-Ensures : (body : List ℕ) → Ensures Any (parse_transforms body)
unfolding parse_transforms
parse_transforms-Ensures body = drain_all-Ensures parse_transform-Advances [] body tt

pub parse_proposal-Advances : Advances Any parse_proposal
unfolding parse_proposal
parse_proposal-Advances out body h _ = Ensures-fail_if_lt _ _ _ _ λ p.
    Ensures-uint16_at _ _ _ (omega arith) λ plen _. Ensures-fail_if_lt _ _ _ _ λ p1.
      Ensures-fail_if_lt _ _ _ _ λ p2. Ensures-byte_at _ _ _ (omega arith) λ spi_size _.
        Ensures-fail_if_lt _ _ _ _ λ p3. Ensures-byte_at _ _ _ (omega arith) λ number _.
          Ensures-byte_at _ _ _ (omega arith) λ protocol _.
            Ensures-slice _ _ _ _ (omega arith) (omega arith) λ spi _.
              Ensures-slice _ _ _ _ (omega arith) (omega arith) λ tbs _.
                Ensures-bind _ _ (parse_transforms-Ensures tbs)
                  λ ts _. Ensures-slice_from _ _ _ (omega arith) λ rest e. yields (omega arith, tt)

-- The Security Association parser returns on every body.
pub unmarshal_sa-Ensures : (ps : List Proposal) (body : List ℕ) → Ensures Any (unmarshal_sa ps body)
unfolding unmarshal_sa
unmarshal_sa-Ensures ps body = drain_all-Ensures parse_proposal-Advances ps body tt
