-- ===== src/Protocol/Log.antt =====
-- crates/dexdeck-protocol/src/log.rs
use dexdeck.Common.{ℕ, String, Option, List, Bool}

pub data LogPriority : Type 0 where
  verbose debug info warning error fatal : LogPriority

-- The place of a priority in its derived order.
abbrev pub rank : LogPriority → ℕ
rank verbose = 0
rank debug = 1
rank info = 2
rank warning = 3
rank error = 4
rank fatal = 5

pub data LogMarkerKind : Type 0 where
  java_crash native_crash anr : LogMarkerKind

pub record LogRecord : Type 0 where
  pub timestamp : String
  pub process_id : ℕ
  pub thread_id : ℕ
  pub user_id : Option ℕ
  pub priority : LogPriority
  pub tag : String
  pub message : String
  pub package_name : Option String
  pub process : Option String
  pub continuation : Bool
  pub crash_boundary : Bool
  pub group_id : Option ℕ
  pub marker : Option LogMarkerKind
  pub truncated : Bool

pub data LogTextSearch : Type 0 where
  plain regex : String → LogTextSearch

pub record LogFilterSpec : Type 0 where
  pub minimum_priority : Option LogPriority
  pub include_tags : List String
  pub exclude_tags : List String
  pub include_packages : List String
  pub exclude_packages : List String
  pub include_processes : List String
  pub exclude_processes : List String
  pub text_search : Option LogTextSearch
  pub case_sensitive : Bool
  pub crash_only : Bool
  pub errors : Bool
