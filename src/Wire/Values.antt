-- ===== src/Wire/Values.antt =====
-- Integers read from a pipe.
use event_management_server.Base.{
  drop_all, ℕ, zero, suc, ◌/◌, ◌^◌, ◌<◌, ◌≡◌, refl, ap, sym, subst, ◌∙◌, Bool, false, [], ◌++◌,
  length, drop, arith, append-nil,
}
use event_management_server.Io.{my_read_round, my_read_loop, my_read}
use event_management_server.Io.Descriptor.{Bytes, Source, read}
use event_management_server.Io.Transfer.{contents, IsFlowing, Full, my_read-Full}
use event_management_server.Wire.{int_size, failed, encode, decode, overlay, received, read_value}

pub length-encode : (size value : ℕ) → length (encode size value) ≡ size
unfolding encode
length-encode zero value = refl
length-encode (suc size) value = ap suc (length-encode size (value / 256))

pub decode-encode : (size value : ℕ) → value < 256 ^ size → decode (encode size value) ≡ value
unfolding encode decode
decode-encode zero value small = omega arith
decode-encode (suc size) value small =
    let rest : decode (encode size (value / 256)) ≡ value / 256 =
      decode-encode size (value / 256) (omega arith) in
    omega arith

pub overlay_full : (bytes stale : Bytes) → length stale ≡ length bytes → overlay bytes stale ≡ bytes
unfolding overlay
overlay_full bytes stale same =
    ap (λ n. bytes ++ drop n stale) (sym same)
    ∙ ap (λ t. bytes ++ t) (drop_all stale)
    ∙ append-nil bytes

-- The value was read, and `rest` is still to come.
pub record Read (value : ℕ) (rest : Bytes) (out : Bool × ℕ × Source) : Type 0 where
  pub succeeded : out.0 ≡ false
  pub value_read : out.1 ≡ value
  pub flowing : IsFlowing out.2
  pub left : contents out.2 ≡ rest

-- An integer of `size` bytes that is the next thing to come, in whatever chunks, is read to its
-- value, whatever the object held before.
pub read_value-encode :
    (size value : ℕ) (stale rest : Bytes) (src : Source)
    → value < 256 ^ size
    → length stale ≡ size
    → IsFlowing src
    → contents src ≡ encode size value ++ rest
    → Read value rest (read_value size stale src)
unfolding read_value received
read_value-encode size value stale rest src small room flow e =
    let full : Full size (encode size value) rest (my_read size src) =
      subst (λ n. Full n (encode size value) rest (my_read n src)) (length-encode size value)
        (my_read-Full (encode size value) rest src flow e) in
    let whole : overlay (encode size value) stale ≡ encode size value =
      overlay_full (encode size value) stale (room ∙ sym (length-encode size value)) in
    record {
      succeeded = ap (λ r. failed r.code) full.result;
      value_read =
          ap (λ r. decode (overlay r.bytes stale)) full.result
          ∙ ap (λ bs. decode bs) whole
          ∙ decode-encode size value small;
      flowing = full.flowing;
      left = full.left;
    }

-- At the end of a file an int keeps what it held before, and the read does not fail.
pub read_value-nothing : (held : Bytes) → read_value int_size held [] ≡ (false, decode held, [])
unfolding read_value received overlay my_read my_read_loop my_read_round read
read_value-nothing held = refl
