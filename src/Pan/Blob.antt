-- ===== src/Pan/Blob.antt =====
-- The reading of the property blob by pan_kmod.c's own backend: it ends on every blob, and on a
-- printed one it is the plain pass over the entries.
use pan_vk_kbase.Prelude.{
  ℕ, zero, suc, ◌+◌, ◌*◌, ◌/◌, ◌%◌, ◌^◌, ◌≡◌, ◌<◌, ◌≤◌, refl, ◌∙◌, some, List, [], ◌∷◌, ◌++◌, leb,
  if◌then◌else◌, take, drop, length, length-append, length-drop, drop-append_of_length, arith,
}
use pan_vk_kbase.GpuProps.{le_value, val_size}
use pan_vk_kbase.GpuProps.Encode.{
  Entry, IsEntry, AllEntries, le_bytes, encode_entry, encode, length-le_bytes,
}
use pan_vk_kbase.Pan.Device.{PanProps, set_prop, value32, props_loop, props_of}

-- what an entry means to this backend: the low word of a value of four or eight bytes, and 0 for a
-- shorter one
abbrev pub apply_entry : Entry → PanProps → PanProps
apply_entry e p = set_prop e.key (if leb 2 e.size_code then e.value % 2 ^ 32 else 0) p

-- in the order of the blob
abbrev pub apply_all : List Entry → PanProps → PanProps
apply_all [] p = p
apply_all (e ∷ es) p = apply_all es (apply_entry e p)

le_value-low_word : (v : ℕ) → le_value (le_bytes 4 v) ≡ v % 2 ^ 32
le_value-low_word v = omega arith

value32-le_bytes :
    (c v : ℕ) (r : List ℕ)
    → c < 4
    → value32 (val_size c) (le_bytes (val_size c) v ++ r) ≡ (if leb 2 c then v % 2 ^ 32 else 0)
value32-le_bytes zero v r h = refl
value32-le_bytes (suc zero) v r h = refl
value32-le_bytes (suc (suc zero)) v r h = le_value-low_word v
value32-le_bytes (suc (suc (suc zero))) v r h = le_value-low_word v
value32-le_bytes (suc (suc (suc (suc c)))) v r h = absurd (omega arith)

drop-value : (c v : ℕ) (r : List ℕ) → drop (val_size c) (le_bytes (val_size c) v ++ r) ≡ r
drop-value c v r =
    drop-append_of_length (val_size c) (le_bytes (val_size c) v) r (length-le_bytes (val_size c) v)

header-size_code : (key c : ℕ) → c < 4 → (key * 4 + c) % 4 ≡ c
header-size_code key c h = omega arith

header-key : (key c : ℕ) → c < 4 → (key * 4 + c) / 4 ≡ key
header-key key c h = omega arith

header_value : (w : ℕ) (rest : List ℕ) → w < 2 ^ 32 → le_value (take 4 (le_bytes 4 w ++ rest)) ≡ w
header_value w rest h = omega arith

-- a round, once the header is known
props_loop-header :
    (n w : ℕ) (vals : List ℕ) (p : PanProps)
    → w < 2 ^ 32
    → props_loop (suc n) (le_bytes 4 w ++ vals) p
      ≡ props_loop n
          (drop (val_size (w % 4)) vals)
          (set_prop (w / 4) (value32 (val_size (w % 4)) vals) p)
unfolding props_loop
props_loop-header n w vals p h = rw (header_value w vals h) refl

props_loop-encode_entry :
    (n : ℕ) (e : Entry) (rest : List ℕ) (p : PanProps)
    → IsEntry e
    → props_loop (suc n) (encode_entry e ++ rest) p ≡ props_loop n rest (apply_entry e p)
unfolding encode_entry
props_loop-encode_entry n e rest p v =
    let w = e.key * 4 + e.size_code in
    let vals = le_bytes (val_size e.size_code) e.value ++ rest in
    props_loop-header n w vals p (omega arith)
    ∙ rw
        (
          header-size_code e.key e.size_code v.code_fits,
          header-key e.key e.size_code v.code_fits,
          drop-value e.size_code e.value rest,
          value32-le_bytes e.size_code e.value rest v.code_fits,
        )
        refl

four-le-length-encode_entry : (e : Entry) → 4 ≤ length (encode_entry e)
unfolding encode_entry
four-le-length-encode_entry e = omega arith

props_loop-encode :
    (n : ℕ) (es : List Entry) (p : PanProps)
    → AllEntries es
    → length (encode es) < n
    → props_loop n (encode es) p ≡ some (apply_all es p)
unfolding encode props_loop
props_loop-encode zero es p v h = absurd (omega arith)
props_loop-encode (suc n) [] p v h = refl
props_loop-encode (suc n) (e ∷ es) p v h =
    let fuel : length (encode es) < n =
      omega (arith, length-append (encode_entry e) (encode es), four-le-length-encode_entry e) in
    props_loop-encode_entry n e (encode es) p v.0
    ∙ props_loop-encode n es (apply_entry e p) v.1 fuel

-- On a printed blob of well-formed entries kbase_query_props is the plain pass over the entries in
-- their order, where an entry of four or eight bytes stands for its low word and a shorter one for
-- 0.
pub props_of-encode :
    (es : List Entry) (p : PanProps)
    → AllEntries es
    → props_of (encode es) p ≡ some (apply_all es p)
unfolding props_of
props_of-encode es p v = props_loop-encode (suc (length (encode es))) es p v (omega arith)

props_loop-total :
    (n : ℕ) (rest : List ℕ) (p : PanProps)
    → length rest < n
    → (q : PanProps) × (props_loop n rest p ≡ some q)
unfolding props_loop
props_loop-total zero rest p h = absurd (omega arith)
props_loop-total (suc n) [] p h = (p, refl)
props_loop-total (suc n) (b ∷ bs) p h =
    let vals = drop 4 (b ∷ bs) in
    let size = val_size (le_value (take 4 (b ∷ bs)) % 4) in
    let shorter : length (drop size vals) < n =
      omega (arith, length-drop size vals, length-drop 3 bs) in
    props_loop-total n (drop size vals) _ shorter

-- The blob of any bytes is read to its end: the loop's fuel is enough.
props_of-total : (bytes : List ℕ) (p : PanProps) → (q : PanProps) × (props_of bytes p ≡ some q)
unfolding props_of
props_of-total bytes p = props_loop-total (suc (length bytes)) bytes p (omega arith)
