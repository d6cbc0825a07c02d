-- ===== src/Files/Kept.antt =====
-- What the C library keeps of the number of open streams.
use edgeflow_energy_gateway.Common.{ℕ, ◌+◌, ◌≤◌, ◌≡◌, none, some}
use edgeflow_energy_gateway.Text.{CString}
use edgeflow_energy_gateway.Files.{Files}

-- `streams w` counts the streams that are open.
pub record CountsStreams {W : Type 0} (files : Files W) (streams : W → ℕ) : Type 0 where
  pub opened :
      (path mode : CString) (w : W) (fp : ℕ)
      → (files.fopen path mode w).0 ≡ some fp
      → streams (files.fopen path mode w).1 ≡ streams w + 1
  pub not_opened :
      (path mode : CString) (w : W)
      → (files.fopen path mode w).0 ≡ none
      → streams (files.fopen path mode w).1 ≡ streams w
  pub streams-seek_end : (fp : ℕ) (w : W) → streams (files.seek_end fp w).1 ≡ streams w
  pub streams-seek_start : (fp : ℕ) (w : W) → streams (files.seek_start fp w).1 ≡ streams w
  pub streams-ftell : (fp : ℕ) (w : W) → streams (files.ftell fp w).1 ≡ streams w
  pub streams-fread : (fp n : ℕ) (w : W) → streams (files.fread fp n w).1 ≡ streams w
  pub streams-fprint :
      (fp : ℕ) (text : CString) (w : W) → streams (files.fprint fp text w) ≡ streams w
  pub streams-fflush : (fp : ℕ) (w : W) → streams (files.fflush fp w) ≡ streams w
  pub streams-mkdir : (path : CString) (w : W) → streams (files.mkdir path w) ≡ streams w
  pub streams-fclose :
      (fp : ℕ) (w : W) → 1 ≤ streams w → streams (files.fclose fp w) + 1 ≡ streams w
