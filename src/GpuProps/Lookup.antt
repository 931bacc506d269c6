-- ===== src/GpuProps/Lookup.antt =====
-- `kbase_gpuprop_get` terminates on every blob, and reads what the printer of the format wrote.
use mathlib.Core.List.{append_assoc}
use pan_vk_kbase.Prelude.{
  ℕ, zero, suc, ◌+◌, ◌*◌, ◌/◌, ◌%◌, ◌^◌, ◌≤◌, ◌<◌, ◌≡◌, refl, ap, ◌∙◌, ◌⊎◌, inl, inr, false, some,
  List, [], ◌∷◌, ◌++◌, arith, ltb, ◌==◌, if◌then◌else◌, Bool-cases, length, take, drop, length-drop,
  length-append, take-append_of_length, drop-append_of_length, lt→ltb,
}
use pan_vk_kbase.GpuProps.{le_value, val_size, gpuprop_loop, gpuprop_get}
use pan_vk_kbase.GpuProps.Encode.{
  Entry, IsEntry, AllEntries, le_bytes, encode_entry, encode, length-le_bytes, le_value-le_bytes,
}

-- Bytes that hold no whole entry.
abbrev pub IsCutOff : List ℕ → Type 0
IsCutOff rest = (length rest < 4) ⊎ (length (drop 4 rest) < val_size (le_value (take 4 rest) % 4))

le→ltb_false : (a b : ℕ) → b ≤ a → ltb a b ≡ false
le→ltb_false a b h = ground arith

lt_or_le : (a b : ℕ) → (a < b) ⊎ (b ≤ a)
lt_or_le a b = omega arith

-- One round of the loop, once its header and what follows it are known.
gpuprop_loop-step :
    (n : ℕ) (rest body : List ℕ) (w key d : ℕ)
    → le_value (take 4 rest) ≡ w
    → drop 4 rest ≡ body
    → 4 ≤ length rest
    → val_size (w % 4) ≤ length body
    → gpuprop_loop (suc n) rest key d ≡ (
        if w / 4 == key
        then some (le_value (take (val_size (w % 4)) body))
        else gpuprop_loop n (drop (val_size (w % 4)) body) key d)
unfolding gpuprop_loop
gpuprop_loop-step n rest body w key d hw hb long full =
    rw (hw, hb, le→ltb_false (length rest) 4 long, le→ltb_false (length body) _ full) refl

gpuprop_loop-stop :
    (n : ℕ) (rest : List ℕ) (key d : ℕ) → IsCutOff rest → gpuprop_loop (suc n) rest key d ≡ some d
unfolding gpuprop_loop
gpuprop_loop-stop n rest key d (inl short) = rw (lt→ltb _ _ short)
gpuprop_loop-stop n rest key d (inr cut) = elim (Bool-cases (ltb (length rest) 4)) [
  | inl t ↦ rw t
  | inr t ↦ rw (t, lt→ltb _ _ cut)
]

is_cut_off :
    (rest : List ℕ)
    → IsCutOff rest
      ⊎ (4 ≤ length rest) × (val_size (le_value (take 4 rest) % 4) ≤ length (drop 4 rest))
is_cut_off rest = elim (lt_or_le (length rest) 4) [
  | inl short ↦ inl (inl short)
  | inr long ↦ elim (lt_or_le (length (drop 4 rest)) (val_size (le_value (take 4 rest) % 4))) [
    | inl cut ↦ inl (inr cut)
    | inr full ↦ inr (long, full)
  ]
]

gpuprop_loop-total :
    (n : ℕ) (rest : List ℕ) (key d : ℕ)
    → length rest < n
    → (v : ℕ) × (gpuprop_loop n rest key d ≡ some v)
gpuprop_loop-total zero rest key d h = absurd (omega arith)
gpuprop_loop-total (suc n) rest key d h =
    let w = le_value (take 4 rest) in
    let vals = drop 4 rest in
    let size = val_size (w % 4) in
    elim (is_cut_off rest) [
      | inl stop ↦ (d, gpuprop_loop-stop n rest key d stop)
      | inr (long, full) ↦
          let shorter : length (drop size vals) < n =
            omega (arith, length-drop size vals, length-drop 4 rest) in
          let (v, e) = gpuprop_loop-total n (drop size vals) key d shorter in
          let step = gpuprop_loop-step n rest vals w key d refl refl long full in
          elim (Bool-cases (w / 4 == key)) [
            | inl hit ↦ (le_value (take size vals), step ∙ rw hit)
            | inr miss ↦ (v, step ∙ rw miss e)
          ]
    ]

-- kbase_gpuprop_get returns a value on every blob, well formed or not.
gpuprop_get-total : (buf : List ℕ) (key d : ℕ) → (v : ℕ) × (gpuprop_get buf key d ≡ some v)
unfolding gpuprop_get
gpuprop_get-total buf key d = gpuprop_loop-total (suc (length buf)) buf key d (omega arith)

-- the value of the first entry with the key
abbrev pub find : List Entry → (key default_val : ℕ) → ℕ
find [] key d = d
find (e ∷ es) key d = if e.key == key then e.value else find es key d

header_value : (w : ℕ) (rest : List ℕ) → w < 2 ^ 32 → le_value (take 4 (le_bytes 4 w ++ rest)) ≡ w
header_value w rest h = omega arith

gpuprop_loop-encode_entry :
    (n : ℕ) (e : Entry) (rest : List ℕ) (key d : ℕ)
    → IsEntry e
    → gpuprop_loop (suc n) (encode_entry e ++ rest) key d
      ≡ (if e.key == key then some e.value else gpuprop_loop n rest key d)
unfolding encode_entry
gpuprop_loop-encode_entry n e rest key d v =
    let w = e.key * 4 + e.size_code in
    let vals = le_bytes (val_size e.size_code) e.value in
    let code : w % 4 ≡ e.size_code = omega arith in
    let key_eq : w / 4 ≡ e.key = omega arith in
    let len : length vals ≡ val_size e.size_code = length-le_bytes (val_size e.size_code) e.value in
    let full : val_size (w % 4) ≤ length (vals ++ rest) =
      rw code (omega (arith, len, length-append vals rest)) in
    let step =
      gpuprop_loop-step n (encode_entry e ++ rest) (vals ++ rest) w key d
        (header_value w (vals ++ rest) (omega arith)) refl (omega arith) full in
    step
    ∙ rw (
      code,
      key_eq,
      take-append_of_length (val_size e.size_code) vals rest len,
      drop-append_of_length (val_size e.size_code) vals rest len,
      le_value-le_bytes (val_size e.size_code) e.value v.value_fits,
    )

four-le-length-encode_entry : (e : Entry) → 4 ≤ length (encode_entry e)
unfolding encode_entry
four-le-length-encode_entry e = omega arith

gpuprop_loop-encode :
    (n : ℕ) (es : List Entry) (tail : List ℕ) (key d : ℕ)
    → AllEntries es
    → IsCutOff tail
    → length (encode es ++ tail) < n
    → gpuprop_loop n (encode es ++ tail) key d ≡ some (find es key d)
unfolding encode
gpuprop_loop-encode zero es tail key d v c h = absurd (omega arith)
gpuprop_loop-encode (suc n) [] tail key d v c h = gpuprop_loop-stop n tail key d c
gpuprop_loop-encode (suc n) (e ∷ es) tail key d v c h =
    let rest = encode es ++ tail in
    let assoc = append_assoc (encode_entry e) (encode es) tail in
    let fuel : length rest < n = omega (
      arith,
      ap length assoc,
      length-append (encode_entry e) rest,
      four-le-length-encode_entry e,
    ) in
    rw assoc (
      gpuprop_loop-encode_entry n e rest key d v.0 ∙ elim (Bool-cases (e.key == key)) [
        | inl hit ↦ rw hit
        | inr miss ↦ rw miss (gpuprop_loop-encode n es tail key d v.1 c fuel)
      ])

-- kbase_gpuprop_get on a printed blob of well-formed entries, with any bytes behind it that hold
-- no whole entry, gives the value of the first entry with the key, or the default.
pub gpuprop_get-encode :
    (es : List Entry) (tail : List ℕ) (key d : ℕ)
    → AllEntries es
    → IsCutOff tail
    → gpuprop_get (encode es ++ tail) key d ≡ some (find es key d)
unfolding gpuprop_get
gpuprop_get-encode es tail key d v c =
    gpuprop_loop-encode (suc (length (encode es ++ tail))) es tail key d v c (omega arith)
