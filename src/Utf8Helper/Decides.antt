-- ===== src/Utf8Helper/Decides.antt =====
-- `isValidUtf8` decides UTF-8.
use velocypack.Prelude.{ℕ, ◌≡◌, ◌∙◌, true, ◌↔◌}
use velocypack.Memory.{Memory, IsByteMemory, bytes_at}
use velocypack.Utf8Helper.{is_valid_utf8}
use velocypack.Utf8Helper.Steps.{start, valid_loop-run}
use velocypack.Utf8Helper.Spec.{IsUtf8}
use velocypack.Utf8Helper.Sound.{run_sound}
use velocypack.Utf8Helper.Complete.{run_complete}

-- `isValidUtf8` accepts the bytes of a memory exactly when they are the RFC 3629 encodings of some
-- Unicode scalar values: no overlong forms, no surrogates, nothing above 0x10ffff, nothing cut off.
pub is_valid_utf8_iff :
    (m : Memory) (p len : ℕ)
    → IsByteMemory m
    → (is_valid_utf8 m p len ≡ true) ↔ IsUtf8 (bytes_at m p len)
unfolding is_valid_utf8
is_valid_utf8_iff m p len b = (
  λ h. run_sound (bytes_at m p len) start (rw (valid_loop-run len m p start b) at h),
  λ (cs, all, e). valid_loop-run len m p start b ∙ rw e (run_complete cs all),
)
