-- ===== src/Tests/Baggage.antt =====
-- armatureanalytics/official/modern_protocol.go: a baggage header with two members.
use mcp_analytics_go.Prelude.{◌≡◌, refl, Option, none, some, List, [], ◌∷◌, Text, bytes, all}
use mcp_analytics_go.Session.{trim_space, trim_front}
use mcp_analytics_go.Official.Modern.{baggage_member}
use mcp_analytics_go.Official.Baggage.{
  Member, IsWritten, value_of, print_baggage, baggage_member-print_baggage,
}

abbrev user_member : Member
user_member = record { name = bytes "user"; value = bytes "7"; properties = some (bytes "p=1") }

abbrev conversation_member : Member
conversation_member = record {
  name = bytes "gen_ai.conversation.id";
  value = bytes "c-1";
  properties = none;
}

abbrev members : List Member
members = user_member ∷ conversation_member ∷ []

abbrev as_it_is : Text → Option Text
as_it_is s = some s

user_member-IsWritten : IsWritten user_member
unfolding all bytes trim_space trim_front
user_member-IsWritten = record {
  name_ends = refl;
  name_member = refl;
  name_list = refl;
  name_trimmed = refl;
  value_member = refl;
  value_list = refl;
  value_trimmed = refl;
}

conversation_member-IsWritten : IsWritten conversation_member
unfolding all bytes trim_space trim_front
conversation_member-IsWritten = record {
  name_ends = refl;
  name_member = refl;
  name_list = refl;
  name_trimmed = refl;
  value_member = refl;
  value_list = refl;
  value_trimmed = refl;
}

baggage_member-print_baggage_example :
    baggage_member as_it_is (print_baggage members) (bytes "gen_ai.conversation.id")
    ≡ value_of as_it_is (bytes "gen_ai.conversation.id") members
unfolding all bytes
baggage_member-print_baggage_example =
    baggage_member-print_baggage as_it_is members (bytes "gen_ai.conversation.id")
      (user_member-IsWritten, refl, (conversation_member-IsWritten, tt, tt))
