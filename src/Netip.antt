-- ===== src/Netip.antt =====
-- What the router uses of Go's net and net/netip packages, which are not part of it: a parameter.
use tiller_router.Prelude.{String, Bool, Option, List}

pub record Netip : Type 1 where
  pub Addr : Type 0
  pub Prefix : Type 0
  -- netip.ParseAddr; `none` is an error.
  pub parse_addr : String → Option Addr
  -- Addr.Unmap, Addr.Is6, Addr.String.
  pub unmap : Addr → Addr
  pub is6 : Addr → Bool
  pub addr_text : Addr → String
  -- Addr.Prefix and Prefix.String, at 64 bits; `none` is an error.
  pub prefix64_text : Addr → Option String
  -- Prefix.Contains.
  pub contains : Prefix → Addr → Bool
  -- The host of net.SplitHostPort; `none` is an error.
  pub split_host : String → Option String
  -- strings.Split at commas, and strings.TrimSpace.
  pub split_commas : String → List String
  pub trim_space : String → String
