-- ===== src/Engine/Sstable/Encoding/Runs.antt =====
-- A length that wraps.
use scoria_db.Base.{◌≡◌, refl, [], ◌∷◌, err}
use scoria_db.Base.Bytes.{le_value, split, read}
use scoria_db.Engine.Sstable.Encoding.{decode_mvcc_key, panic}

-- 4 + 4294967288 + 8 wraps to 4, so the test passes and the slice is out of bounds.
wrapped_length : decode_mvcc_key (248 ∷ 255 ∷ 255 ∷ 255 ∷ []) ≡ err panic
unfolding decode_mvcc_key read split le_value
wrapped_length = refl
