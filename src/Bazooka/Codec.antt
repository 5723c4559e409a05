-- ===== src/Bazooka/Codec.antt =====
-- core/bazooka.go: what the encoders and decoders make of each other's results, with contracts that
-- read back the words that they encode.
use reddit_commander.Prelude.{
  ℕ, ℤ, pos, negsuc, int64_of, ltb, ltb→lt, ltb→ge, ◌-◌, ◌+◌, ◌%◌, ◌≤◌, ◌<◌, ◌^◌, ◌≡◌, refl, ap,
  arith, ok, Bool-cases, inl, inr, if◌then◌else◌,
}
use reddit_commander.Bytes.{Slice}
use reddit_commander.Bazooka.{
  Frontend, AbiState, AbiTransfer, encode_state, decode_state, encode_transfer_tx,
  decode_transfer_tx,
}

-- The 256-bit word that the ABI encoder of go-ethereum writes for a big.Int in a uint256 argument: its
-- two's complement, cut off at 256 bits.
abbrev pub word : ℤ → ℤ
word (pos n) = pos (n % 2 ^ 256)
word (negsuc n) = pos (2 ^ 256 - 1 - n % 2 ^ 256)

abbrev pub words_of_state : AbiState → AbiState
words_of_state st = record {
  pubkey_index = word st.pubkey_index;
  token_type = word st.token_type;
  balance = word st.balance;
  nonce = word st.nonce;
}

abbrev pub words_of_transfer : AbiTransfer → AbiTransfer
words_of_transfer tx = record {
  tx_type = word tx.tx_type;
  from_index = word tx.from_index;
  to_index = word tx.to_index;
  amount = word tx.amount;
  fee = word tx.fee;
  nonce = word tx.nonce;
}

-- The contract reads back the words of the states that it encodes.
abbrev pub StatesRoundtrip : Frontend → Type 0
StatesRoundtrip F =
    (st : AbiState)
    → (bz : Slice) × (F.encode st ≡ ok bz) × (F.decode_state bz ≡ ok (words_of_state st))

-- The contract reads back the words of the transfers that it encodes.
abbrev pub TransfersRoundtrip : Frontend → Type 0
TransfersRoundtrip F =
    (tx : AbiTransfer)
    → (bz : Slice) × (F.encode_transfer tx ≡ ok bz)
      × (F.decode_transfer bz ≡ ok (words_of_transfer tx))

-- A uint64 as it comes back through int64 and a word: its sign bit is spread over the upper bits.
abbrev pub spread : ℕ → ℤ
spread n = pos (if ltb n (2 ^ 63) then n else n + (2 ^ 256 - 2 ^ 64))

word-int64_of : (n : ℕ) → n < 2 ^ 64 → word (int64_of n) ≡ spread n
word-int64_of n h = elim (Bool-cases (ltb n (2 ^ 63))) [
  | inl e ↦ let small : n < 2 ^ 63 = ltb→lt n (2 ^ 63) e in rw e (ap pos (omega arith))
  | inr e ↦ let big : 2 ^ 63 ≤ n = ltb→ge n (2 ^ 63) e in rw e (ap pos (omega arith))
]

-- With contracts that read back the words they encode, `DecodeState` returns of each of the id, the
-- balance, the nonce and the token that `EncodeState` was given, uint64s, the number itself below 2^63
-- and the number with its sign bit spread over 256 bits from there on.
pub decode_state-encode_state :
    (F : Frontend) (id balance nonce token : ℕ)
    → StatesRoundtrip F
    → id < 2 ^ 64
    → balance < 2 ^ 64
    → nonce < 2 ^ 64
    → token < 2 ^ 64
    → (bz : Slice) × (encode_state F id balance nonce token ≡ ok bz)
      × (decode_state F bz ≡ ok (spread id, spread balance, spread nonce, spread token))
unfolding encode_state decode_state
decode_state-encode_state F id balance nonce token trip hi hb hn ht =
    let (bz, made, reads) = trip (record {
      pubkey_index = int64_of id;
      token_type = int64_of token;
      balance = int64_of balance;
      nonce = int64_of nonce;
    }) in
    (
      bz,
      made,
      rw
          (
            reads,
            word-int64_of id hi,
            word-int64_of balance hb,
            word-int64_of nonce hn,
            word-int64_of token ht,
          )
          refl,
    )

-- With contracts that read back the words they encode, `DecodeTransferTx` returns the token that
-- `EncodeTransferTx` was given as the amount, the nonce as the fee and the amount as the nonce, each as
-- its word of 256 bits; the ends and the type keep their places.
pub decode_transfer_tx-encode_transfer_tx :
    (F : Frontend) (from to token nonce amount tx_type : ℤ)
    → TransfersRoundtrip F
    → (bz : Slice) × (encode_transfer_tx F from to token nonce amount tx_type ≡ ok bz)
      × (decode_transfer_tx F bz
          ≡ ok (word from, word to, word amount, word tx_type, word token, word nonce))
unfolding encode_transfer_tx decode_transfer_tx
decode_transfer_tx-encode_transfer_tx F from to token nonce amount tx_type trip =
    let (bz, made, reads) = trip (record {
      tx_type = tx_type;
      from_index = from;
      to_index = to;
      amount = token;
      fee = nonce;
      nonce = amount;
    }) in
    (bz, made, rw reads refl)
