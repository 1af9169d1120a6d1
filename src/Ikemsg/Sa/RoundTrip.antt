-- ===== src/Ikemsg/Sa/RoundTrip.antt =====
-- payloads_sa.go: the writer and the reader of proposals together.
use go_ipsec.Common.{
  ℕ, ◌+◌, ◌%◌, ◌*◌, ◌≤◌, ◌≡◌, refl, sym, ◌∙◌, ap, Bool, true, false, List, [], ◌∷◌, ◌++◌, length,
  arith, Outcome, ok, ◌>>=◌, fail_if, byte_at, slice, slice_from, uint16_at, put_uint16, drain_all,
  drain_all_step, IsU16, IsByte, if◌then◌else◌, All, append-nil, append_assoc, length-append, ltb,
  run-bind, run-fail_if_lt, take-append, drop-append, slice_middle, run-byte_at, run-uint16_at,
  run-slice, run-slice_from,
}
use go_ipsec.Ikemsg.Sa.{
  Transform, Proposal, key_length_attr, marshal_transform, marshal_transforms, marshal_proposal,
  marshal_proposals, tv_attr, parse_attr, parse_transform, parse_transforms, parse_proposal,
  unmarshal_sa,
}
use go_ipsec.Ikemsg.Sa.Total.{parse_transform-Advances, parse_proposal-Advances}
use go_ipsec.Ikemsg.Const.{CodecError}

-- The fields fit their Go types, and a key length is only set with its flag.
pub record IsTransform (t : Transform) : Type 0 where
  pub type_fits : IsByte t.type
  pub id_fits : IsU16 t.id
  pub key_length_fits : IsU16 t.key_length
  pub flagged : t.has_key_length ≡ false → t.key_length ≡ 0

pub record IsProposal (p : Proposal) : Type 0 where
  pub number_fits : IsByte p.number
  pub protocol_fits : IsByte p.protocol
  pub spi_fits : length p.spi ≤ 255
  pub few_transforms : length p.transforms ≤ 255
  pub transforms_valid : All IsTransform p.transforms

-- `write` yields bytes, at least `lo` and at most `hi` of them, from which one round of `read`, with
-- any bytes behind them, appends `x` to the list read so far.
abbrev ReadsBack :
    {A : Type 0}
    → ℕ
    → ℕ
    → Outcome CodecError (List ℕ)
    → (List A → List ℕ → Outcome CodecError (List A × List ℕ))
    → A
    → Type 0
ReadsBack {A} lo hi write read x =
    (bs : List ℕ) × (write ≡ ok bs)
    × (lo ≤ length bs)
    × (length bs ≤ hi)
    × ((out : List A) (rest : List ℕ) → read out (bs ++ rest) ≡ ok (out ++ x ∷ [], rest))

transform_fields :
    (type id k : ℕ) (has more : Bool)
    → IsU16 id
    → IsU16 k
    → (has ≡ false → k ≡ 0)
    → let t : Transform = record { type = type; id = id; key_length = k; has_key_length = has } in
      ReadsBack 8 12 (marshal_transform t more) parse_transform t
unfolding marshal_transform key_length_attr parse_transform parse_attr tv_attr ◌>>=◌ fail_if byte_at
    slice slice_from uint16_at drain_all
transform_fields type id k true more hi hk flagged = (
  (if more then 3 else 0) ∷ 0 ∷ 0 ∷ 12 ∷ type ∷ 0 ∷ (put_uint16 id ++ 0x80 ∷ 0x0e ∷ put_uint16 k),
  ground arith,
  omega arith,
  omega arith,
  λ out rest. ground arith,
)
transform_fields type id k false more hi hk flagged = (
  (if more then 3 else 0) ∷ 0 ∷ 0 ∷ 8 ∷ type ∷ 0 ∷ put_uint16 id,
  ground (arith, flagged refl),
  omega arith,
  omega arith,
  λ out rest. ground (arith, flagged refl),
)

transform_step :
    (t : Transform) (more : Bool)
    → IsTransform t
    → ReadsBack 8 12 (marshal_transform t more) parse_transform t
transform_step t more v =
    transform_fields t.type t.id t.key_length t.has_key_length more v.id_fits v.key_length_fits
      v.flagged

transforms_round :
    (ts : List Transform)
    → All IsTransform ts
    → (bs : List ℕ) × (marshal_transforms ts ≡ ok bs)
      × (length bs ≤ 12 * length ts)
      × ((out : List Transform) → drain_all parse_transform out bs ≡ ok (out ++ ts))
unfolding marshal_transforms
transforms_round [] v =
    ([], refl, omega arith, λ out. unfold drain_all in ap ok (sym (append-nil out)))
transforms_round (t ∷ ts) (v, vs) =
    let (td, wrote, some_bytes, few, reads) = transform_step t (ltb 0 (length ts)) v in
    let (bs, wrote', few', reads') = transforms_round ts vs in
    (
      td ++ bs,
      run-bind _ td _ wrote (run-bind _ bs _ wrote' refl),
      omega (arith, length-append td bs),
      λ out.
          drain_all_step parse_transform-Advances out (td ++ bs) (out ++ t ∷ []) bs
            (omega (arith, length-append td bs)) tt (reads out bs)
          ∙ reads' (out ++ t ∷ [])
          ∙ ap ok (append_assoc out (t ∷ []) ts),
    )

module _ (p : Proposal) (more : Bool) (v : IsProposal p) (tds : List ℕ)
    (few : length tds ≤ 12 * length p.transforms) where
  abbrev proposal_length : ℕ
  proposal_length = 8 + length (p.spi ++ tds)

  abbrev proposal_header : List ℕ
  proposal_header =
      (if more then 2 else 0)
      ∷ 0
      ∷ (put_uint16 proposal_length
          ++ p.number ∷ p.protocol ∷ (length p.spi % 256) ∷ (length p.transforms % 256) ∷ [])

  abbrev proposal_bytes : List ℕ
  proposal_bytes = proposal_header ++ (p.spi ++ tds)

  proposal_read :
      (out : List Proposal) (rest : List ℕ)
      → ((out : List Transform) → drain_all parse_transform out tds ≡ ok (out ++ p.transforms))
      → parse_proposal out (proposal_bytes ++ rest) ≡ ok (out ++ p ∷ [], rest)
  unfolding parse_proposal parse_transforms
  proposal_read out rest reads =
      let few_spi = v.spi_fits in
      let few_ts = v.few_transforms in
      let cut = length-append p.spi tds in
      let all = length-append (p.spi ++ tds) rest in
      run-fail_if_lt _ _ _ _ (omega arith) (
        run-uint16_at _ _ proposal_length _ (omega arith) (omega (arith, cut)) (
          run-fail_if_lt _ _ _ _ (omega arith) (
            run-fail_if_lt _ _ _ _ (omega (arith, all)) (
              run-byte_at _ _ (length p.spi) _ (omega arith) (omega arith) (
                run-fail_if_lt _ _ _ _ (omega (arith, cut)) (
                  run-byte_at _ _ p.number _ (omega arith) refl (
                    run-byte_at _ _ p.protocol _ (omega arith) refl (
                      run-slice _ _ _ p.spi _ (omega arith) (omega (arith, all, cut))
                        (rw (append_assoc p.spi tds rest)
                          (take-append _ p.spi (tds ++ rest) (omega arith)))
                        (run-slice _ _ _ tds _ (omega (arith, cut)) (omega (arith, all, cut))
                          (rw (append_assoc p.spi tds rest) (
                            slice_middle (proposal_header ++ p.spi) tds rest _ _ (omega arith)
                              (omega (arith, cut))))
                          (run-bind _ p.transforms _ (reads []) (
                            run-slice_from _ _ rest _ (omega (arith, all))
                              (drop-append _ proposal_bytes rest (omega arith)) refl)))))))))))

proposal_step :
    (p : Proposal) (more : Bool)
    → IsProposal p
    → ReadsBack 8 3323 (marshal_proposal p more) parse_proposal p
unfolding marshal_proposal
proposal_step p more v =
    let (tds, wrote, few, reads) = transforms_round p.transforms v.transforms_valid in
    let few_spi = v.spi_fits in
    let few_ts = v.few_transforms in
    (
      proposal_bytes p more v tds few,
      run-fail_if_lt _ _ _ _ (omega arith)
          (run-fail_if_lt _ _ _ _ (omega arith) (run-bind _ tds _ wrote refl)),
      omega arith,
      omega (arith, length-append p.spi tds),
      λ out rest. proposal_read p more v tds few out rest reads,
    )

-- The proposals of a Security Association payload, with fields that fit, at most 255 transforms and an SPI
-- of at most 255 bytes each, are written and read back, behind those that the receiver holds.
pub proposals_round :
    (ps : List Proposal)
    → All IsProposal ps
    → (bs : List ℕ) × (marshal_proposals ps ≡ ok bs)
      × (length bs ≤ 3323 * length ps)
      × ((out : List Proposal) → unmarshal_sa out bs ≡ ok (out ++ ps))
unfolding marshal_proposals unmarshal_sa
proposals_round [] v =
    ([], refl, omega arith, λ out. unfold drain_all in ap ok (sym (append-nil out)))
proposals_round (p ∷ ps) (v, vs) =
    let (pd, wrote, some_bytes, few, reads) = proposal_step p (ltb 0 (length ps)) v in
    let (bs, wrote', few', reads') = proposals_round ps vs in
    (
      pd ++ bs,
      run-bind _ pd _ wrote (run-bind _ bs _ wrote' refl),
      omega (arith, length-append pd bs),
      λ out.
          drain_all_step parse_proposal-Advances out (pd ++ bs) (out ++ p ∷ []) bs
            (omega (arith, length-append pd bs)) tt (reads out bs)
          ∙ reads' (out ++ p ∷ [])
          ∙ ap ok (append_assoc out (p ∷ []) ps),
    )
