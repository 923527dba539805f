-- ===== src/Config.antt =====
-- config/wsx.rb: the configuration language. A text is the list of its code points, an exception is
-- `none`, and the line and column of a token, which only messages use, are left out.
pub mod Lexer
pub mod Parser
pub mod Compiler
pub mod RoundTrip
mod Tests
use olwsx.Base.{ℕ, Option, List}

abbrev pub Text : Type 0
Text = List ℕ

-- `Token`; the symbols are `:`, `,`, `<` and `>`.
pub data Token : Type 0 where
  nl : Token
  string : Text → Token
  ident : Text → Token
  int : ℕ → Token
  symbol : ℕ → Token

pub record RouteNode : Type 0 where
  pub prefix : Text
  pub status_override : Option ℕ
  pub static_body : Option Text
  pub flags : List Text

pub record HeaderNode : Type 0 where
  pub key : Text
  pub value : Text
  pub prefix : Text

pub record WafRuleNode : Type 0 where
  pub rule_type : Text
  pub value : Text

pub record RateLimitNode : Type 0 where
  pub capacity : ℕ
  pub refill_per_s : ℕ
  pub retry_after_s : ℕ

pub record CacheWarmupNode : Type 0 where
  pub key : Text
  pub value : Text
  pub flags : List Text

-- The hash that `parse` returns.
pub record Ast : Type 0 where
  pub routes : List RouteNode
  pub headers : List HeaderNode
  pub waf_rules : List WafRuleNode
  pub ratelimit : Option RateLimitNode
  pub cache_warmups : List CacheWarmupNode
  pub generation : Option ℕ
