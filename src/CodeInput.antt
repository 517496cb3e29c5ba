-- ===== src/CodeInput.antt =====
-- `QTCodeInput` of vrjugglua/qt-console/QTCodeInput.cpp: which files may be dragged onto the editor, and
-- which signals it emits where they are dropped.
pub mod Dropping
use vr_jugglua.Prelude.{
  Bool, true, false, ◌||◌, List, [], ◌∷◌, ◌++◌, Option, none, some, Bytes, codes, if◌then◌else◌,
}

-- Qt, another project's code: the path of a URL, whether a text ends in another one in whatever case,
-- and the text of an editor with a paragraph put behind it.
pub record Qt : Type 1 where
  pub Url : Type 0
  pub to_local_file : Url → Bytes
  pub ends_with : Bytes → Bytes → Bool
  pub append_plain_text : Bytes → Bytes → Bytes

-- What a handler does with the event: it accepts the proposed action, leaves the event alone, or
-- calls the handler of `QPlainTextEdit`.
pub data Reply : Type 0 where
  accepted left_alone passed_on : Reply

module _ (qt : Qt) where
  open qt use {Url, to_local_file, ends_with}

  pub data Signal : Type 0 where
    got_jconf got_lua_file : Url → Signal

  unfoldable pub is_jconf : Url → Bool
  is_jconf url = ends_with (to_local_file url) (codes ".jconf")

  unfoldable pub is_local_lua_file : Url → Bool
  is_local_lua_file url = ends_with (to_local_file url) (codes ".lua")

  -- The loop of the two drag events, which ends at the first such URL.
  unfoldable pub find_accepted : List Url → Reply
  find_accepted [] = left_alone
  find_accepted (url ∷ urls) =
      let rest = find_accepted urls in
      if is_jconf url || is_local_lua_file url then accepted else rest

  -- The URLs of the event's data, none where it has none.
  unfoldable pub drag_enter_event : Option (List Url) → Reply
  unfolding find_accepted
  drag_enter_event none = passed_on
  drag_enter_event (some urls) = find_accepted urls

  unfoldable pub drag_move_event : Option (List Url) → Reply
  unfolding find_accepted
  drag_move_event none = passed_on
  drag_move_event (some urls) = find_accepted urls

  -- The loop of the drop event, with `accept` and the signals so far.
  unfoldable pub drop_urls : List Url → Bool × List Signal → Bool × List Signal
  drop_urls [] found = found
  drop_urls (url ∷ urls) (accept, signals) = drop_urls urls (
      if is_jconf url
      then (true, signals ++ (got_jconf url ∷ []))
      else if is_local_lua_file url
      then (true, signals ++ (got_lua_file url ∷ []))
      else (accept, signals))

  unfoldable pub drop_event : Option (List Url) → Reply × List Signal
  unfolding drop_urls
  drop_event none = (passed_on, [])
  drop_event (some urls) =
      let (accept, signals) = drop_urls urls (false, []) in
      (if accept then accepted else left_alone, signals)
