-- ===== src/Migration/Checks/Headroom.antt =====
-- The check of free space and the widths of its integers.
use typedb_mcp.Prelude.{ℕ, ◌*◌, ◌^◌, ◌≤◌, ◌<◌, ◌≡◌, ◌↔◌, some, arith}
use typedb_mcp.Migration.Paths.{PathBuf}
use typedb_mcp.Migration.Disk.{returned}
use typedb_mcp.Migration.Checks.{ensure_free_space, available}

-- For a reserve that fits in 64 bits the check passes exactly when the free bytes, computed without
-- any overflow, are at least the reserve.
pub ensure_free_space-available :
    (path : PathBuf) (bavail frsize required : ℕ)
    → required < 2 ^ 64
    → (ensure_free_space path (available (some (bavail, frsize))) required ≡ returned tt)
      ↔ (required ≤ bavail * frsize)
unfolding ensure_free_space available
ensure_free_space-available path bavail frsize required h = ground arith
