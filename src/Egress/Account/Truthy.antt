-- ===== src/Egress/Account/Truthy.antt =====
-- The tests of bind_quota_egress.py by `is True` and by truth.
use grok_build_auth.Prelude.{◌≡◌, true}
use grok_build_auth.Egress.Account.{is_true}
use grok_build_auth.Json.{null, obj, arr, str, float, int, bool, Value, truthy}

pub truthy-is_true : (v : Value) → is_true v ≡ true → truthy v ≡ true
unfolding truthy
truthy-is_true (bool b) h = h
truthy-is_true null h = cc
truthy-is_true (int m) h = cc
truthy-is_true (float m k) h = cc
truthy-is_true (str t) h = cc
truthy-is_true (arr xs) h = cc
truthy-is_true (obj d) h = cc
