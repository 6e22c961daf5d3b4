-- ===== src/Keeper/Transactions.antt =====
-- xcron-keeper-rs/src/transaction.rs: the transactions that the keeper sends, as the text that is signed.
-- Base64, ed25519 and its keys are parameters; the JSON of a whole transaction is serde's.
use xcron_protocol.Prelude.{
  ℕ, zero, suc, ◌+◌, ◌-◌, ◌/◌, ◌%◌, ◌≡◌, refl, Option, none, some, List, [], ◌∷◌, ◌++◌, ltb,
  if◌then◌else◌, codes, length,
}
use xcron_protocol.Prelude.Decimal.{Text, to_string}

pub record Transaction : Type 0 where
  pub nonce : ℕ
  pub value : Text
  pub receiver : Text
  pub sender : Text
  pub gas_price : ℕ
  pub gas_limit : ℕ
  pub payload : Option Text
  pub chain_id : Text
  pub version : ℕ
  pub options : Option ℕ
  pub relayer : Option Text
  pub signature : Option Text
  pub relayer_signature : Option Text

-- A text in the double quotes of JSON, whose code is 34.
abbrev quoted : Text → Text
quoted s = 34 ∷ (s ++ (34 ∷ []))

abbrev field : Text → Text → Text
field name value = quoted name ++ (58 ∷ value)

-- `parts.join(",")`; 44 is the comma.
unfoldable join : List Text → Text
join [] = []
join (p ∷ []) = p
join (p ∷ q ∷ ps) = p ++ (44 ∷ join (q ∷ ps))

abbrev if_some {ℓ} : {A : Type ℓ} → (A → Text) → Option A → List Text
if_some f none = []
if_some f (some a) = f a ∷ []

-- `serialize_for_signing`, and so `serialize_for_relayer_signing`; 123 and 125 are the braces.
unfoldable pub serialize_for_signing : Transaction → Text
unfolding join
serialize_for_signing tx =
    123
    ∷ (join (
          (field (codes "nonce") (to_string tx.nonce)
            ∷ field (codes "value") (quoted tx.value)
            ∷ field (codes "receiver") (quoted tx.receiver)
            ∷ field (codes "sender") (quoted tx.sender)
            ∷ field (codes "gasPrice") (to_string tx.gas_price)
            ∷ field (codes "gasLimit") (to_string tx.gas_limit)
            ∷ [])
          ++ (if_some (λ d. field (codes "data") (quoted d)) tx.payload
              ++ ((field (codes "chainID") (quoted tx.chain_id)
                    ∷ field (codes "version") (to_string tx.version)
                    ∷ [])
                  ++ (if_some (λ n. field (codes "options") (to_string n)) tx.options
                      ++ if_some (λ r. field (codes "relayer") (quoted r)) tx.relayer))))
        ++ (125 ∷ []))

-- `Transaction::new`, with base64 for the data.
unfoldable pub new_transaction :
    (Text → Text) → ℕ → Text → Text → Text → ℕ → ℕ → Option Text → Text → ℕ → Transaction
new_transaction base64 nonce value receiver sender gas_price gas_limit bytes chain_id version =
    record {
      nonce = nonce;
      value = value;
      receiver = receiver;
      sender = sender;
      gas_price = gas_price;
      gas_limit = gas_limit;
      payload = elim bytes [ none ↦ none | some b ↦ some (base64 b) ];
      chain_id = chain_id;
      version = version;
      options = none;
      relayer = none;
      signature = none;
      relayer_signature = none;
    }

-- The data of an execution: the endpoint, the task and the secret; 64 is the separator.
unfoldable pub execution_data : Text → Option Text → Text
execution_data task_hex secret_hex =
    codes "executeQuantumTask"
    ++ (64
        ∷ (task_hex
            ++ elim secret_hex [ none ↦ codes "@00" | some secret ↦ codes "@01" ++ secret ]))

unfoldable pub build_quantum_execution_tx :
    (Text → Text) → ℕ → Text → Text → Text → Option Text → Text → Transaction
unfolding new_transaction execution_data
build_quantum_execution_tx base64 nonce sender scheduler task_hex secret_hex chain_id =
    new_transaction base64 nonce (codes "0") scheduler sender 1000000000 30000000
      (some (execution_data task_hex secret_hex)) chain_id 1

-- `{:x}`: a digit above 9 is a letter from 97 on.
abbrev hex_digit : ℕ → ℕ
hex_digit d = if ltb d 10 then 48 + d else 87 + d

unfoldable hex_digits : ℕ → ℕ → Text
hex_digits zero n = []
hex_digits (suc k) n =
    let front = hex_digits k (n / 16) in
    if ltb n 16 then hex_digit n ∷ [] else front ++ (hex_digit (n % 16) ∷ [])

unfoldable zeros : ℕ → Text
zeros zero = []
zeros (suc k) = 48 ∷ zeros k

-- `{:016x}` and its kin, of a 64-bit number: at least `width` digits.
unfoldable pub hex_padded : ℕ → ℕ → Text
unfolding hex_digits zeros
hex_padded width n = zeros (width - length (hex_digits 16 n)) ++ hex_digits 16 n

unfoldable pub hex_args : List Text → Text
unfolding hex_padded
hex_args [] = []
hex_args (arg ∷ args) = hex_padded 8 (length arg / 2) ++ (arg ++ hex_args args)

-- The fields that every task is sent with: no deposit, no retries, no time to live and no creation time,
-- pending and assigned to none.
unfoldable pub fixed_fields : Text
fixed_fields =
    codes "00000000"
    ++ (codes "00"
        ++ (codes "00"
            ++ (codes "0000000000000000"
                ++ (codes "0000000000000000"
                    ++ (codes "00"
                        ++ (codes "00"
                            ++ (codes "0000000000000000"
                                ++ (codes "00" ++ (codes "00" ++ codes "00")))))))))

unfoldable pub serialize_quantum_task_hex : ℕ → Text → Text → Text → List Text → ℕ → Text → ℕ → Text
unfolding hex_args fixed_fields
serialize_quantum_task_hex id owner target endpoint args trigger_type trigger_hex max_gas =
    hex_padded 16 id
    ++ (owner
        ++ (target
            ++ ((hex_padded 8 (length endpoint / 2) ++ endpoint)
                ++ (hex_padded 8 (length args)
                    ++ (hex_args args
                        ++ ((hex_padded 2 trigger_type ++ trigger_hex)
                            ++ (hex_padded 16 max_gas ++ fixed_fields)))))))

-- A key signs a text; hex is part of it.
module _ {K : Type 0} (sign_with : K → Text → Text) where
  unfoldable pub sign : K → Transaction → Transaction
  sign key tx = record tx { signature = some (sign_with key (serialize_for_signing tx)) }

  unfoldable pub to_relayed_v3 : Text → K → Transaction → Transaction
  to_relayed_v3 relayer key tx =
      let with_relayer : Transaction = record tx { relayer = some relayer } in
      record with_relayer {
        relayer_signature = some (sign_with key (serialize_for_signing with_relayer));
      }

  -- A transaction that names its relayer before its sender signs it is relayed with both signatures over
  -- the text that is sent, whatever was signed before.
  pub sign-to_relayed_v3 :
      (sender_key relayer_key : K) (relayer : Text) (tx : Transaction)
      → let sent =
          to_relayed_v3 relayer relayer_key
            (sign sender_key (record tx { relayer = some relayer })) in
        (sent.signature ≡ some (sign_with sender_key (serialize_for_signing sent)))
        × (sent.relayer_signature ≡ some (sign_with relayer_key (serialize_for_signing sent)))
  unfolding sign to_relayed_v3 serialize_for_signing
  sign-to_relayed_v3 sender_key relayer_key relayer tx = (refl, refl)
