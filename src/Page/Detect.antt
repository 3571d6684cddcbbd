-- ===== src/Page/Detect.antt =====
-- A page with one byte changed never decodes.
use shibadb.Bytes.{IsByte}
use shibadb.Page.{PageView, page_decode}
use shibadb.Page.Canonical.{page_decode-IsPage}
use shibadb.Page.RoundTrip.{page_size_bounds}
use shibadb.Seal.Detect.{set-IsSealed}
use shibadb.Status.{ok}
use shibadb.Prelude.{ℕ, ◌≡◌, arith, List, All, length, some, get_or, set, ◌<◌, ◌≢◌}

-- If a page of `page_size` bytes decodes, then with any other byte at any one place it does not.
pub page_decode_detects_change :
    (page : List ℕ) (page_size page_id i b : ℕ) (view other : PageView)
    → All IsByte page
    → length page ≡ page_size
    → page_decode (some page) page_size page_id ≡ ok view
    → i < page_size
    → IsByte b
    → b ≢ get_or page i 0
    → page_decode (some (set page i b)) page_size page_id ≢ ok other
page_decode_detects_change page page_size page_id i b view other bytes whole da hi hb ne db =
    let (valid, _) = page_decode-IsPage page page_size page_id da in
    let (valid', _) = page_decode-IsPage (set page i b) page_size page_id db in
    set-IsSealed page 28 i b bytes hb (omega (arith, page_size_bounds page_size valid.size_valid))
      (omega arith) ne valid.checksum valid'.checksum
