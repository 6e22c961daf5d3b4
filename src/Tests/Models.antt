-- ===== src/Tests/Models.antt =====
-- A set as a bit list, a vector as a dictionary with a length, a provider that takes and gives
-- nothing, and an environment.
use xcron_protocol.Prelude.{
  is_some, ◌||◌, ℕ, zero, suc, ◌+◌, ◌-◌, ◌≤◌, ◌≡◌, refl, ◌++◌, Bool, true, false, some, List, [],
  ◌∷◌, arith, ◌==◌, if◌then◌else◌, Dict, lookup, insert, erase, lookup-insert, lookup-erase, length,
}
use xcron_protocol.Framework.{ok, Ctx, Account, SetMapper, SetItems, VecMapper}
use xcron_protocol.Agents.Types.{BiDiMapper}
use xcron_protocol.KeeperRegistry.Delegation.{Provider}
use xcron_protocol.Scheduler.Environment.{Env}

abbrev pub bit : ℕ → List Bool → Bool
bit n [] = false
bit zero (b ∷ bs) = b
bit (suc n) (b ∷ bs) = bit n bs

abbrev pub set_bit : ℕ → List Bool → List Bool
set_bit zero [] = true ∷ []
set_bit zero (b ∷ bs) = true ∷ bs
set_bit (suc n) [] = false ∷ set_bit n []
set_bit (suc n) (b ∷ bs) = b ∷ set_bit n bs

abbrev pub clear_bit : ℕ → List Bool → List Bool
clear_bit n [] = []
clear_bit zero (b ∷ bs) = false ∷ bs
clear_bit (suc n) (b ∷ bs) = b ∷ clear_bit n bs

abbrev pub bits : List Bool → ℕ
bits [] = 0
bits (true ∷ bs) = bits bs + 1
bits (false ∷ bs) = bits bs

pub bit-set_bit :
    (a b : ℕ) (s : List Bool) → bit b (set_bit a s) ≡ (if a == b then true else bit b s)
bit-set_bit zero zero [] = ground arith
bit-set_bit zero zero (x ∷ s) = ground arith
bit-set_bit zero (suc b) [] = ground arith
bit-set_bit zero (suc b) (x ∷ s) = ground arith
bit-set_bit (suc a) zero [] = ground arith
bit-set_bit (suc a) zero (x ∷ s) = ground arith
bit-set_bit (suc a) (suc b) [] = ground (arith, bit-set_bit a b [])
bit-set_bit (suc a) (suc b) (x ∷ s) = ground (arith, bit-set_bit a b s)

pub bit-clear_bit :
    (a b : ℕ) (s : List Bool) → bit b (clear_bit a s) ≡ (if a == b then false else bit b s)
bit-clear_bit a b [] = ground arith
bit-clear_bit zero zero (x ∷ s) = ground arith
bit-clear_bit zero (suc b) (x ∷ s) = ground arith
bit-clear_bit (suc a) zero (x ∷ s) = ground arith
bit-clear_bit (suc a) (suc b) (x ∷ s) = ground (arith, bit-clear_bit a b s)

pub bits-set_bit :
    (a : ℕ) (s : List Bool) → bits (set_bit a s) ≡ (if bit a s then bits s else bits s + 1)
bits-set_bit zero [] = refl
bits-set_bit zero (true ∷ s) = refl
bits-set_bit zero (false ∷ s) = refl
bits-set_bit (suc a) [] = bits-set_bit a []
bits-set_bit (suc a) (x ∷ s) = ground (arith, bits-set_bit a s)

bit-bits : (a : ℕ) (s : List Bool) → bit a s ≡ true → 1 ≤ bits s
bit-bits a [] h = ground arith
bit-bits zero (true ∷ s) h = omega arith
bit-bits zero (false ∷ s) h = ground arith
bit-bits (suc a) (true ∷ s) h = omega arith
bit-bits (suc a) (false ∷ s) h = bit-bits a s h

pub bits-clear_bit :
    (a : ℕ) (s : List Bool) → bits (clear_bit a s) ≡ (if bit a s then bits s - 1 else bits s)
bits-clear_bit a [] = refl
bits-clear_bit zero (true ∷ s) = omega arith
bits-clear_bit zero (false ∷ s) = refl
bits-clear_bit (suc a) (x ∷ s) = ground (arith, bits-clear_bit a s, bit-bits a s)

instance unfoldable pub bit_set : SetMapper (List Bool)
bit_set = record {
  empty_set = [];
  contains = bit;
  insert_item = set_bit;
  swap_remove = clear_bit;
  len = bits;
  contains-empty = λ a. refl;
  contains-insert = bit-set_bit;
  contains-swap_remove = bit-clear_bit;
  len-empty = refl;
  len-insert = bits-set_bit;
  len-swap_remove = bits-clear_bit;
}

-- The members, from the number `k` of the first bit on.
abbrev pub members : ℕ → List Bool → List ℕ
members k [] = []
members k (true ∷ bs) = k ∷ members (suc k) bs
members k (false ∷ bs) = members (suc k) bs

pub length-members : (k : ℕ) (bs : List Bool) → bits bs ≡ length (members k bs)
length-members k [] = refl
length-members k (true ∷ bs) = omega (arith, length-members (suc k) bs)
length-members k (false ∷ bs) = length-members (suc k) bs

instance unfoldable pub bit_items : SetItems (List Bool)
unfolding bit_set
bit_items = record { items_of = members 0; len-items = length-members 0 }

abbrev pub Vec : Type 0
Vec = ℕ × Dict ℕ

pub lookup-push :
    (i a : ℕ) (v : Vec)
    → lookup i (insert (v.0 + 1) a v.1) ≡ (if i == v.0 + 1 then some a else lookup i v.1)
lookup-push i a v = ground (arith, lookup-insert (v.0 + 1) i a v.1)

instance unfoldable pub dict_vec : VecMapper Vec
dict_vec = record {
  empty_vec = (0, []);
  vec_len = λ v. v.0;
  get_item = λ i v. lookup i v.1;
  push = λ a v. (v.0 + 1, insert (v.0 + 1) a v.1);
  set_item = λ i a v. (v.0, insert i a v.1);
  clear_entry = λ i v. (v.0, erase i v.1);
  vec_len-empty = refl;
  vec_len-push = λ a v. refl;
  vec_len-set = λ i a v. refl;
  vec_len-clear = λ i v. refl;
  get_item-push = lookup-push;
  get_item-set = λ i j a v. lookup-insert i j a v.1;
  get_item-clear = λ i j v. lookup-erase i j v.1;
}

-- The id of a value in a dictionary from ids, or 0.
abbrev pub id_of : ℕ → Dict ℕ → ℕ
id_of v [] = 0
id_of v ((i, w) ∷ d) = if w == v then i else id_of v d

abbrev pub has_value : ℕ → Dict ℕ → Bool
has_value v [] = false
has_value v ((i, w) ∷ d) = w == v || has_value v d

abbrev pub insert_free : ℕ → ℕ → Dict ℕ → Dict ℕ
insert_free i v d = if is_some (lookup i d) || has_value v d then d else insert i v d

pub insert_free-taken :
    (i v : ℕ) (d : Dict ℕ) → (is_some (lookup i d) || has_value v d) ≡ true → insert_free i v d ≡ d
insert_free-taken i v d e = rw e refl

pub lookup-insert_free :
    (i j v : ℕ) (d : Dict ℕ)
    → (is_some (lookup i d) || has_value v d) ≡ false
    → lookup j (insert_free i v d) ≡ (if i == j then some v else lookup j d)
lookup-insert_free i j v d e = rw e (lookup-insert i j v d)

instance unfoldable pub dict_bidi : BiDiMapper (Dict ℕ)
dict_bidi = record {
  get_value = lookup;
  get_id = id_of;
  contains_id = λ i d. is_some (lookup i d);
  contains_value = has_value;
  insert_pair = insert_free;
  insert_pair-taken = insert_free-taken;
  get_value-insert_pair = lookup-insert_free;
}

abbrev pub idle_provider : Provider
idle_provider = record {
  delegate = λ n a. ok a;
  undelegate = λ n a. ok a;
  claim_rewards = λ a. ok a;
  withdraw = λ a. ok a;
}

-- The hash of a buffer is its length, and a task is encoded as its identifier.
abbrev pub env : Env
env = record {
  sha256 = length;
  encode_task = λ task. task.id ∷ [];
  encode_number = λ n b. n ∷ b;
  encode_address = λ a b. a ∷ b;
  encode_token = λ t b. t ∷ b;
  encode_buffer = λ x b. b ++ x;
  bool_top_decode = λ b. some true;
  shard_of = λ a. 0;
  query_oracle = λ a b. ok [];
  verify_proof = λ a h b. ok ((1 ∷ []) ∷ []);
  verify_zk_proof = λ a h b. ok ((1 ∷ []) ∷ []);
  is_safe_to_execute = λ a. ok ((1 ∷ []) ∷ []);
}

-- A call without payment, by the owner 1 of the contract 2.
abbrev pub by_owner : Ctx
by_owner = record {
  caller = 1;
  owner = 1;
  self_addr = 2;
  egld = 0;
  esdt = [];
  timestamp = 1000000;
  round = 7;
  block_nonce = 90;
  gas_left = 600000000;
  random_seed = 5;
}

abbrev pub as_caller : ℕ → Ctx
as_caller a = record by_owner { caller = a }

abbrev pub paying : ℕ → ℕ → Ctx
paying a amount = record by_owner { caller = a; egld = amount }

abbrev pub account_of : ℕ → Account
account_of balance = record { balance = balance; outbox = [] }
