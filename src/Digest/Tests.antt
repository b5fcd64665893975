-- ===== src/Digest/Tests.antt =====
-- Digests of concrete candidates, and the theorems at them.
use monad_hackathon.Digest.{build_candidate_tx_digest, payload}
use monad_hackathon.Digest.Covered.{
  IsHexText, SameFields, build_candidate_tx_digest-same, fields_of_digest,
}
use monad_hackathon.Js.{Fields, end, field, get, num, present, str}
use monad_hackathon.Keccak.{keccak256}
use monad_hackathon.Prelude.{In, String, arith, inl, inr, refl, to_lower, true, ◌↔◌, ◌≡◌}
use monad_hackathon.Redaction.Hidden.{IsHexRun}

abbrev shouted : Fields
shouted = field "to" (str "0xAB") (field "chain_id" (num 10143) (field "nonce" (num 7) end))

abbrev plain : Fields
plain = field "chain_id" (num 10143) (field "to" (str "0xab") end)

payload_run :
    payload shouted
    ≡ "{\"digest_version\":\"compass-candidate-v1\",\"fields\":{\"chain_id\":10143,\"to\":\"0xab\"}}"
unfolding payload to_lower
payload_run = refl

hex_case :
    (s t : String) × (str "0xAB" ≡ str s)
    × (str "0xab" ≡ str t)
    × IsHexText s
    × IsHexText t
    × (to_lower s ≡ to_lower t)
unfolding to_lower IsHexRun
hex_case = (
  "0xAB",
  "0xab",
  refl,
  refl,
  (
    1,
    "AB",
    refl,
    (inr (inl (omega arith, omega arith)), (inr (inl (omega arith, omega arith)), tt)),
  ),
  (
    1,
    "ab",
    refl,
    (inr (inr (omega arith, omega arith)), (inr (inr (omega arith, omega arith)), tt)),
  ),
  refl,
)

same_fields : SameFields fields_of_digest shouted plain
unfolding get
same_fields = (
  inl refl,
  (
    inl refl,
    (
      inr hex_case,
      (
        inl refl,
        (
          inl refl,
          (
            inl refl,
            (
              inl refl,
              (
                inl refl,
                (inl refl, (inl refl, (inl refl, (inl refl, (inl refl, (inl refl, tt)))))),
              ),
            ),
          ),
        ),
      ),
    ),
  ),
)

build_candidate_tx_digest-same_example :
    (build_candidate_tx_digest shouted ≡ build_candidate_tx_digest plain)
    × ((build_candidate_tx_digest shouted).digest ≡ keccak256 (payload shouted))
    × ((name : String)
        → In name (build_candidate_tx_digest shouted).covered_fields
          ↔ (In name fields_of_digest × (present (get name shouted) ≡ true)))
build_candidate_tx_digest-same_example = build_candidate_tx_digest-same shouted plain same_fields
