-- ===== src/Sandbox/Runtime.antt =====
-- What sandbox/ takes from Python's own library: `json.dumps` with compact separators and sorted keys,
-- `json.dumps` with the default separators and sorted keys, `hashlib.sha256(...).hexdigest()` of a text
-- in UTF-8, and `re.compile(pattern).search(text)` as a test.
use repo_health_doctor.Base.{ℕ, String, Bool}
use repo_health_doctor.Json.{Value}

pub record SandboxRuntime : Type 0 where
  pub compact_dumps : Value → String
  pub dumps : Value → String
  pub sha256_hex : String → String
  pub search : String → String → Bool
  -- whether a list of so many items can be built; where not, `[item] * count` raises OverflowError (or
  -- MemoryError, which the callers treat alike)
  pub fits : ℕ → Bool
