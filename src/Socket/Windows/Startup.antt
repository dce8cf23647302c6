-- ===== src/Socket/Windows/Startup.antt =====
-- The start of WinSock (luarpc.c, `net_startup`).
use luarpc.Base.{ℕ, ◌*◌, ◌+◌, ◌/◌, ◌%◌, ◌==◌, ◌||◌, not, if◌then◌else◌, Option, none, some}
use luarpc.Errors.{Exception, exception, fatal}

-- The calls on a system in the state `W`: `wsa_startup` gives its result and `wVersion`.
pub record Wsa (W : Type 0) : Type 0 where
  pub wsa_startup : ℕ → W → ℕ × ℕ × W
  pub wsa_cleanup : W → W
  pub wsa_get_last_error : W → ℕ

abbrev makeword : (low high : ℕ) → ℕ
makeword low high = low + 256 * high

abbrev lobyte : ℕ → ℕ
lobyte n = n % 256

abbrev hibyte : ℕ → ℕ
hibyte n = n / 256 % 256

module _ {W : Type 0} (wsa : Wsa W) where
  -- `if( err != 0 ) throw a fatal exception`
  unfoldable expect_started : ℕ → W → Option Exception × W
  expect_started err w =
      if err == 0 then (none, w) else (some (exception fatal (wsa.wsa_get_last_error w)), w)

  -- The test of the version, behind a start whose result was tested already.
  unfoldable confirm_version : (err version : ℕ) → W → Option Exception × W
  unfolding expect_started
  confirm_version err version w =
      if not (lobyte version == 2) || not (hibyte version == 0)
      then expect_started err (wsa.wsa_cleanup w)
      else (none, w)

  unfoldable after_startup : ℕ × ℕ × W → Option Exception × W
  unfolding expect_started confirm_version
  after_startup (err, version, w) =
      if err == 0 then confirm_version err version w else expect_started err w

  -- The exception that is thrown, if there is one, and the system.
  unfoldable pub net_startup : W → Option Exception × W
  unfolding after_startup
  net_startup w = after_startup (wsa.wsa_startup (makeword 2 0) w)
