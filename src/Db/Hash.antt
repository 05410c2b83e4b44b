-- ===== src/Db/Hash.antt =====
-- db/dict.go, `Hash`: FNV-1a over the printed key, and what the table asks of its keys.
use Prim.Native.Nat.{bit_xor}
use go_mock_redis.Base.{
  ℕ, ◌*◌, ◌%◌, ◌^◌, ◌≡◌, Bool, true, [], ◌∷◌, Bytes, ◌==◌, if◌then◌else◌, Run, ok, fault, Fault,
  bytes_eq, bytes_eq_sound, bytes_eq_refl,
}
use go_mock_redis.Db.Memory.{Value, string}

-- What the code uses of a key's type: `fmt.Sprintf("%v", key)`, `reflect.DeepEqual` and its size.
pub record Key {ℓ} (K : Type ℓ) : Type ℓ where
  pub printed : K → Bytes
  pub equal : K → K → Bool
  pub value : K → Value
  pub equal_sound : (a b : K) → equal a b ≡ true → a ≡ b
  pub equal_refl : (a : K) → equal a a ≡ true

-- `fnv.New32a`: offset basis and prime of the 32-bit FNV-1a hash.
unfoldable pub fnv1a : ℕ → Bytes → ℕ
fnv1a h [] = h
fnv1a h (b ∷ bs) = fnv1a (bit_xor h b * 16777619 % 2 ^ 32) bs

-- `int(hasher.Sum32()) % size`; an int has 64 bits, so the hash is not negative.
unfoldable pub hash {ℓ} : {K : Type ℓ} ⦃key : Key K⦄ → K → ℕ → Run ℕ
hash ⦃key⦄ k size =
    if size == 0 then fault Fault.division_by_zero else ok (fnv1a 2166136261 (key.printed k) % size)

-- Strings as keys.
instance abbrev pub bytes_key : Key Bytes
bytes_key = record {
  printed = λ s. s;
  equal = bytes_eq;
  value = string;
  equal_sound = bytes_eq_sound;
  equal_refl = bytes_eq_refl;
}
