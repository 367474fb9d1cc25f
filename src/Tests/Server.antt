-- ===== src/Tests/Server.antt =====
-- A server without faults and without other sessions, which reads rows backwards, and the promises
-- that it keeps.
use mathlib.Core.List.{reverse, reverse_perm}
use real_time_ai_chat_backen.Base.{◌+◌, ◌*◌, ◌%◌, refl, false}
use real_time_ai_chat_backen.Session.{Server}
use real_time_ai_chat_backen.Session.Atomic.{IsQuiet}
use real_time_ai_chat_backen.Session.Healthy.{IsHealthy}
use real_time_ai_chat_backen.Services.Conversation.Listing.{IsScanning}

-- Its identifiers and its times count up from 100; a second passes between two readings of the
-- clock, which starts again after 1,000,000,000 of them.
abbrev pub quick : Server
quick = record {
  uuid_at = λ n. n + 100;
  now_at = λ n. n + 100;
  clock_at = λ n. n % 1_000_000_000 * 1_000_000;
  fault_at = λ n. false;
  others_at = λ n t ws. t;
  scan_conversations_at = λ n cs. reverse cs;
  scan_messages_at = λ n ms. reverse ms;
}

pub quick-IsHealthy : IsHealthy quick
quick-IsHealthy = record { no_faults = λ n. refl; others_same = λ n t ws. refl }

pub quick-IsQuiet : IsQuiet quick
quick-IsQuiet = record { others_same = λ n t ws. refl }

pub quick-IsScanning : IsScanning quick
quick-IsScanning = record {
  conversations_perm = λ n cs. reverse_perm cs;
  messages_perm = λ n ms. reverse_perm ms;
}
