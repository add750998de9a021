-- ===== src/Cache/State.antt =====
-- The structs of the cache. A response is kept as the parts that the cache reads.
use net_llm.Prelude.{ℕ, ◌+◌, ◌*◌, String, Bool, List, [], length}
use net_llm.Prelude.Dict.{Dict}
use Prim.Native.String.{len}

pub record Request : Type 0 where
  pub id : String
  pub model_id : String
  pub prompt : String
  pub messages : List String

pub record Response : Type 0 where
  pub content : String
  pub total_tokens : ℕ

-- `last_accessed` is the entry of that name in the metadata, which `Set` writes, as `model_id` is.
pub record CacheEntry : Type 0 where
  pub key : String
  pub response : Response
  pub created_at : ℕ
  pub expires_at : ℕ
  pub hit_count : ℕ
  pub size : ℕ
  pub model_id : String
  pub last_accessed : ℕ

pub data EvictionPolicy : Type 0 where
  lru lfu fifo other_policy : EvictionPolicy

pub record CacheConfig : Type 0 where
  pub enabled : Bool
  pub max_size_bytes : ℕ
  pub default_ttl : ℕ
  pub max_entries : ℕ
  pub eviction_policy : EvictionPolicy
  pub enable_warmup : Bool

pub record CacheStats : Type 0 where
  pub total_requests : ℕ
  pub hits : ℕ
  pub misses : ℕ
  pub evictions : ℕ
  pub expirations : ℕ
  pub total_size : ℕ
  pub entry_count : ℕ

pub record InferenceCache : Type 0 where
  pub entries : Dict CacheEntry
  pub config : CacheConfig
  pub stats : CacheStats
  pub enabled : Bool

pub data Error : Type 0 where
  cache_miss key_failed cache_full cache_disabled : Error

pub data Result {ℓ} (A : Type ℓ) : Type ℓ where
  ok : A → Result A
  err : Error → Result A

unfoldable pub new : CacheConfig → InferenceCache
new config = record {
  entries = [];
  config = config;
  stats = record {
    total_requests = 0;
    hits = 0;
    misses = 0;
    evictions = 0;
    expirations = 0;
    total_size = 0;
    entry_count = 0;
  };
  enabled = config.enabled;
}

unfoldable pub estimate_entry_size : Request → Response → ℕ
estimate_entry_size req resp =
    len req.prompt
    + length req.messages * 100
    + 500
    + len resp.content
    + resp.total_tokens * 10
    + 500
