-- ===== src/Mesh/Receive/Hops.antt =====
-- src/mesh.c: how forwarding changes the path, and that it changes nothing else.
use meshcore_repeater.Common.{
  ℕ, zero, suc, ◌+◌, ◌-◌, ◌*◌, ◌/◌, ◌%◌, ◌^◌, ◌≤◌, ◌<◌, ◌≡◌, refl, sym, ap, ◌∙◌, true, false, List,
  [], ◌∷◌, ◌++◌, ◌==◌, length, take, drop, write_at, arith,
}
use meshcore_repeater.Common.{length-write_at, length-append, length-take, length-drop, take-append}
use mathlib.Core.Path.{ap₂}
use mathlib.Core.List.{append_assoc}
use native.Mathlib.Nat.{add-zero, add-suc}
use meshcore_repeater.Common.{take-nil}
use meshcore_repeater.Util.Endian.{IsByte}
use meshcore_repeater.Identity.{copy_hash}
use meshcore_repeater.Packet.{
  Packet, IsValid, path_hash_count, path_hash_size, path_byte_len, set_path_hash_count,
  valid_path_len, payload_type, payload_trace,
}
use meshcore_repeater.Packet.Codec.{calc_hash}
use meshcore_repeater.Packet.Body.{path_byte_len-le}
use meshcore_repeater.Mesh.State.{Mesh}
use meshcore_repeater.Mesh.Receive.{append_hop, strip_hop}

abbrev pub path_bytes : Packet → List ℕ
path_bytes p = take (path_byte_len p) p.path

-- The path byte after the hop count is set: six bits of it are kept.
path-IsByte_in :
    (b n : ℕ)
    → IsByte b
    → let b' = b / 2 ^ 6 * 2 ^ 6 + n % 64 in
      (b' % 64 ≡ n % 64) × (b' / 2 ^ 6 ≡ b / 2 ^ 6) × IsByte b'
path-IsByte_in b n h = omega arith

path_hash_size-le :
    (p : Packet) → valid_path_len p.path_len ≡ true → IsByte p.path_len → path_hash_size p ≤ 3
unfolding valid_path_len path_hash_size
path_hash_size-le p h b = ground arith

-- The guard of mesh_on_recv before a hop is appended.
abbrev pub HasRoom : Packet → Type 0
HasRoom p = (path_hash_count p + 1) * path_hash_size p ≤ 64

mul_le : (a b k m : ℕ) → a ≤ b → b * k ≤ m → a * k ≤ m
mul_le a b k m h l = grind arith

-- Setting a hop count whose bytes fit leaves a packet valid.
set_count-IsValid :
    (p : Packet) (path : List ℕ) (n : ℕ)
    → IsValid p
    → length path ≡ 64
    → n * path_hash_size p ≤ 64
    → IsValid (set_path_hash_count (record p { path = path }) n)
unfolding set_path_hash_count path_hash_size valid_path_len
set_count-IsValid p path n v s r = record {
  header_in = v.header_in;
  code_0_in = v.code_0_in;
  code_1_in = v.code_1_in;
  path_len_in = (path-IsByte_in p.path_len n v.path_len_in).2;
  path_len_ok = ground (
    arith,
    path-IsByte_in p.path_len n v.path_len_in,
    v.path_len_ok,
    mul_le (n % 64) n (p.path_len / 2 ^ 6 + 1) 64 (omega arith) r,
  );
  path_size = s;
  payload_len_in = v.payload_len_in;
  payload_size = v.payload_size;
}

length-copy_hash :
    (m : Mesh) (n : ℕ) → length m.id.public_key ≡ 32 → n ≤ 32 → length (copy_hash m.id n) ≡ n
unfolding copy_hash
length-copy_hash m n e h = omega (arith, length-take n m.id.public_key)

set_count_parts :
    (p : Packet) (path : List ℕ) (n : ℕ)
    → IsValid p
    → let q = set_path_hash_count (record p { path = path }) n in
      (path_hash_count q ≡ n % 64) × (path_hash_size q ≡ path_hash_size p)
unfolding set_path_hash_count path_hash_size path_hash_count
set_count_parts p path n v = omega (arith, path-IsByte_in p.path_len n v.path_len_in)

byte_len_lem : (p : Packet) → path_byte_len p ≡ path_hash_count p * path_hash_size p
unfolding path_byte_len path_hash_size path_hash_count
byte_len_lem p = refl

count-lt : (p : Packet) → path_hash_count p < 64
unfolding path_hash_count
count-lt p = omega arith

-- The front of an array after a write in the middle of it.
take-write_mid :
    (i n : ℕ) (src dst : List ℕ)
    → i ≤ length dst
    → n ≡ i + length src
    → take n (write_at i src dst) ≡ take i dst ++ src
take-write_mid i n src dst h e =
    ap (take n) (sym (append_assoc (take i dst) src (drop (i + length src) dst)))
    ∙ take-append n (take i dst ++ src) (drop (i + length src) dst)
        (omega (arith, length-append (take i dst) src, length-take i dst))

module _ (m : Mesh) (p : Packet) (v : IsValid p) (key : length m.id.public_key ≡ 32)
    (room : HasRoom p) where
  hash_size : length (copy_hash m.id (path_hash_size p)) ≡ path_hash_size p
  hash_size =
      length-copy_hash m (path_hash_size p) key
        (omega (arith, path_hash_size-le p v.path_len_ok v.path_len_in))

  -- The appended hash lies inside the path array.
  hash_fits : path_hash_count p * path_hash_size p + length (copy_hash m.id (path_hash_size p)) ≤ 64
  hash_fits = grind (arith, hash_size)

  -- Appending a hop that the guard admits leaves a packet valid: no write leaves the path array and
  -- the result serialises.
  pub append_hop-IsValid : IsValid (append_hop m p)
  unfolding append_hop
  append_hop-IsValid =
      set_count-IsValid p
        (write_at (path_hash_count p * path_hash_size p) (copy_hash m.id (path_hash_size p)) p.path)
        (path_hash_count p + 1) v
        (length-write_at (path_hash_count p * path_hash_size p) (copy_hash m.id (path_hash_size p))
            p.path (omega (arith, hash_fits, v.path_size))
          ∙ v.path_size)
        room

  appended :
      (path_hash_count (append_hop m p) ≡ (path_hash_count p + 1) % 64)
      × (path_hash_size (append_hop m p) ≡ path_hash_size p)
  unfolding append_hop
  appended =
      set_count_parts p
        (write_at (path_hash_count p * path_hash_size p) (copy_hash m.id (path_hash_size p)) p.path)
        (path_hash_count p + 1) v

  appended_byte_len :
      path_hash_count p < 63
      → path_byte_len (append_hop m p)
        ≡ path_hash_count p * path_hash_size p + length (copy_hash m.id (path_hash_size p))
  appended_byte_len l =
      byte_len_lem (append_hop m p)
      ∙ ap₂ ◌*◌ (appended.0 ∙ small) appended.1
      ∙ omega (arith, hash_size)
    where
      small : (path_hash_count p + 1) % 64 ≡ path_hash_count p + 1
      small = omega arith

  -- Below the sixty-third hop the path grows by exactly this node's hash, at its end.
  pub append_hop_path :
      path_hash_count p < 63
      → (path_hash_count (append_hop m p) ≡ path_hash_count p + 1)
        × (path_hash_size (append_hop m p) ≡ path_hash_size p)
        × (path_bytes (append_hop m p) ≡ path_bytes p ++ copy_hash m.id (path_hash_size p))
        × ((append_hop m p).payload ≡ p.payload)
        × ((append_hop m p).payload_len ≡ p.payload_len)
        × ((append_hop m p).header ≡ p.header)
  unfolding append_hop set_path_hash_count
  append_hop_path l = (
    appended.0 ∙ omega arith,
    appended.1,
    take-write_mid (path_hash_count p * path_hash_size p) (path_byte_len (append_hop m p))
          (copy_hash m.id (path_hash_size p)) p.path (omega (arith, hash_fits, v.path_size))
          (appended_byte_len l)
        ∙ ap (λ (k : ℕ). take k p.path ++ copy_hash m.id (path_hash_size p)) (sym (byte_len_lem p)),
    refl,
    refl,
    refl,
  )

-- The sixty-fourth one-byte hop is admitted by the guard, but the count has six bits: the packet
-- goes out with an empty path.
pub append_hop_wraps :
    (m : Mesh) (p : Packet)
    → IsValid p
    → path_hash_count p ≡ 63
    → path_hash_size p ≡ 1
    → HasRoom p × (path_hash_count (append_hop m p) ≡ 0) × (path_bytes (append_hop m p) ≡ [])
unfolding append_hop
append_hop_wraps m p v c s =
    (rw (c, s) (omega arith), wrapped, ap (λ (k : ℕ). take k (append_hop m p).path) no_bytes)
  where
    wrapped : path_hash_count (append_hop m p) ≡ 0
    wrapped =
        (set_count_parts p
          (write_at (path_hash_count p * path_hash_size p) (copy_hash m.id (path_hash_size p))
            p.path)
          (path_hash_count p + 1) v).0
        ∙ omega arith

    no_bytes : path_byte_len (append_hop m p) ≡ 0
    no_bytes = byte_len_lem (append_hop m p) ∙ (rw wrapped (omega arith))

small : (k : ℕ) → k < 64 → k % 64 ≡ k
small k h = omega arith

one_hop : (n hs : ℕ) → 1 ≤ n → (n - 1) * hs + hs ≡ n * hs
one_hop zero hs h = absurd (omega arith)
one_hop (suc n) hs h = grind arith

drop-take : (k j : ℕ) (xs : List ℕ) → drop k (take (j + k) xs) ≡ take j (drop k xs)
drop-take zero j xs = ap (λ (i : ℕ). take i xs) (add-zero j)
drop-take (suc k) j [] = rw (take-nil ℕ (j + suc k), take-nil ℕ j)
drop-take (suc k) j (x ∷ xs) =
    ap (λ (i : ℕ). drop (suc k) (take i (x ∷ xs))) (add-suc j k) ∙ drop-take k j xs

-- Stripping the first hop of a valid packet that has one leaves a valid packet, whose path is the
-- rest of the path; header and payload stay.
pub strip_hop_lem :
    (p : Packet)
    → IsValid p
    → 1 ≤ path_hash_count p
    → IsValid (strip_hop p)
      × (path_hash_count (strip_hop p) ≡ path_hash_count p - 1)
      × (path_hash_size (strip_hop p) ≡ path_hash_size p)
      × (path_bytes (strip_hop p) ≡ drop (path_hash_size p) (path_bytes p))
      × ((strip_hop p).payload ≡ p.payload)
      × ((strip_hop p).payload_len ≡ p.payload_len)
      × ((strip_hop p).header ≡ p.header)
unfolding strip_hop set_path_hash_count
strip_hop_lem p v l = (
  set_count-IsValid p stripped (n - 1) v sized fits,
  parts.0 ∙ omega (arith, count-lt p),
  parts.1,
  take-append (path_byte_len (strip_hop p)) (take ((n - 1) * hs) (drop hs p.path))
        (drop (0 + length (take ((n - 1) * hs) (drop hs p.path))) p.path)
        (byte_len ∙ sym moved_size)
      ∙ sym (drop-take hs ((n - 1) * hs) p.path)
      ∙ ap (λ (k : ℕ). drop hs (take k p.path)) (one_hop n hs l ∙ sym (byte_len_lem p)),
  refl,
  refl,
  refl,
)
  where
    n : ℕ
    n = path_hash_count p

    hs : ℕ
    hs = path_hash_size p

    stripped : List ℕ
    stripped = write_at 0 (take ((n - 1) * hs) (drop hs p.path)) p.path

    room : n * hs ≤ 64
    room = omega (arith, byte_len_lem p, path_byte_len-le p v.path_len_ok)

    fits : (n - 1) * hs ≤ 64
    fits = mul_le (n - 1) n hs 64 (omega arith) room

    moved_size : length (take ((n - 1) * hs) (drop hs p.path)) ≡ (n - 1) * hs
    moved_size = omega (
      arith,
      length-take ((n - 1) * hs) (drop hs p.path),
      length-drop hs p.path,
      v.path_size,
      one_hop n hs l,
      room,
    )

    sized : length stripped ≡ 64
    sized =
        length-write_at 0 (take ((n - 1) * hs) (drop hs p.path)) p.path
          (omega (arith, moved_size, fits, v.path_size))
        ∙ v.path_size

    parts : (path_hash_count (strip_hop p) ≡ (n - 1) % 64) × (path_hash_size (strip_hop p) ≡ hs)
    parts = set_count_parts p stripped (n - 1) v

    byte_len : path_byte_len (strip_hop p) ≡ (n - 1) * hs
    byte_len =
        byte_len_lem (strip_hop p)
        ∙ ap₂ ◌*◌ (parts.0 ∙ small (n - 1) (omega (arith, count-lt p))) parts.1

-- The dedup hash reads neither the path nor the route, but for a trace.
pub calc_hash_cong :
    (sha256 : List ℕ → List ℕ) (p q : Packet)
    → payload_type q ≡ payload_type p
    → (payload_type p == payload_trace) ≡ false
    → q.payload ≡ p.payload
    → q.payload_len ≡ p.payload_len
    → calc_hash sha256 q ≡ calc_hash sha256 p
unfolding calc_hash
calc_hash_cong sha256 p q t n e l = rw (t, n, e, l)
