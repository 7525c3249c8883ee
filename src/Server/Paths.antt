-- ===== src/Server/Paths.antt =====
-- Paths of pipes in arrays of MAX_PATH bytes.
use event_management_server.Base.{
  ℕ, zero, suc, ◌-◌, ◌<◌, ◌≤◌, ◌≡◌, ◌≢◌, refl, ap, true, some, [], ◌∷◌, ◌++◌, arith, length,
  length-append, length-replicate, replicate, take, drop, ltb, ==_ne, append_assoc,
}
use event_management_server.Io.Descriptor.{Bytes}
use event_management_server.Wire.{overlay}
use event_management_server.Api.Connection.{max_path, path_buffer}
use event_management_server.Server.Extract.{c_string, snprintf_path}

abbrev pub AllNonzero : Bytes → Type 0
AllNonzero [] = Unit {0}
AllNonzero (b ∷ bs) = (b ≢ 0) × AllNonzero bs

-- A path that fits its array together with the zero byte.
pub record IsPath (path : Bytes) : Type 0 where
  pub nonzero : AllNonzero path
  pub short : length path < max_path

-- The array that holds the path.
unfoldable pub path_bytes : Bytes → Bytes
path_bytes path = path ++ replicate (max_path - length path) 0

pub length-path_bytes : (path : Bytes) → IsPath path → length (path_bytes path) ≡ max_path
unfolding path_bytes
length-path_bytes path p = omega (
  arith,
  p.short,
  length-append path (replicate (max_path - length path) 0),
  length-replicate {A = ℕ} (max_path - length path) 0,
)

pub path_buffer-path_bytes :
    (path : Bytes) → IsPath path → path_buffer path ≡ some (path_bytes path)
unfolding path_buffer path_bytes
path_buffer-path_bytes path p =
    let fits : ltb (length path) max_path ≡ true = ground (arith, p.short) in rw fits refl

pub c_string-append :
    (path rest : Bytes) → AllNonzero path → c_string (path ++ 0 ∷ rest) ≡ some path
unfolding c_string
c_string-append [] rest h = refl
c_string-append (b ∷ bs) rest h = rw (==_ne b 0 h.0, c_string-append bs rest h.1, c_string) refl

zeros : (n : ℕ) → 0 < n → (rest : Bytes) × (replicate n 0 ≡ 0 ∷ rest)
zeros zero h = absurd (omega arith)
zeros (suc n) h = (replicate n 0, refl)

pub c_string-path_bytes : (path : Bytes) → IsPath path → c_string (path_bytes path) ≡ some path
unfolding path_bytes
c_string-path_bytes path p =
    let (rest, e) = zeros (max_path - length path) (omega (arith, p.short)) in
    rw e (c_string-append path rest p.nonzero)

take_short : (n : ℕ) (bs : Bytes) → length bs ≤ n → take n bs ≡ bs
take_short zero [] h = refl
take_short zero (b ∷ bs) h = absurd (omega arith)
take_short (suc n) [] h = refl
take_short (suc n) (b ∷ bs) h = ap (λ t. b ∷ t) (take_short n bs (omega arith))

-- Copied by `snprintf` from an array that holds it into any other, it is the same path.
pub snprintf_path-c_string :
    (old array path : Bytes)
    → IsPath path
    → c_string array ≡ some path
    → (copy : Bytes) × (snprintf_path old array ≡ some copy) × (c_string copy ≡ some path)
unfolding snprintf_path overlay
snprintf_path-c_string old array path p text =
    let whole : take (max_path - 1) path ≡ path =
      take_short (max_path - 1) path (omega (arith, p.short)) in
    let after = drop (length (path ++ 0 ∷ [])) old in
    (
      (path ++ 0 ∷ []) ++ after,
      rw (text, snprintf_path, whole) refl,
      rw (append_assoc path (0 ∷ []) after) (c_string-append path after p.nonzero),
    )
