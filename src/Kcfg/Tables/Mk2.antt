-- ===== src/Kcfg/Tables/Mk2.antt =====
-- src/kcfg.c: the items of the MK2.
use mhuxd.Base.{List, [], ◌∷◌}
use mhuxd.Kcfg.Items.{Citem, item}

-- `c_mk2`
unfoldable pub c_mk2 : List Citem
c_mk2 =
    item "r1FrMpkExtra_Digital.pwmMonctr" 12 4 5 0
    ∷ item "r1FrMpkExtra_Digital.reserve" 12 5 1 0
    ∷ item "r1FrMpkExtra_Digital.onAirRecActive" 12 6 1 0
    ∷ item "r1FrMpkExtra_Digital.onAirRecControlByRouter" 12 7 1 0
    ∷ item "pwmContrast" 13 4 5 15
    ∷ item "pwmBlight" 14 4 5 25
    ∷ item "dispBg0" 15 7 8 6
    ∷ item "dispBg1" 16 7 8 5
    ∷ item "dispEv.recMsg" 17 0 1 0
    ∷ item "dispEv.playMsg" 17 1 1 0
    ∷ item "dispEv.txDecoder" 17 2 1 0
    ∷ item "dispEv.rxDecoder" 17 3 1 0
    ∷ item "dispEv.recDecoder" 17 4 1 0
    ∷ item "dispEv.wpmChange" 17 5 1 0
    ∷ item "dispEv.steppirCmd" 17 6 1 0
    ∷ item "dispEv.rxFreqChange" 17 7 1 0
    ∷ item "dispEv.txFreqChange" 17 8 1 0
    ∷ item "dispEv.modeChange" 17 9 1 0
    ∷ item "dispEv.micChange" 17 10 1 0
    ∷ item "dispEv.steppirLock" 17 11 1 0
    ∷ item "dispEv.sysPwr" 17 12 1 1
    ∷ item "dispEv.wpmInCwMode" 17 13 1 0
    ∷ item "dispEv.cfgOverriden" 17 14 1 0
    ∷ item "dispEv.wpmSnControlChange" 17 15 1 0
    ∷ item "dispEv.snChange" 17 16 1 0
    ∷ item "dispEv.snInCwMode" 17 17 1 0
    ∷ item "dispEv.wpmSnInCwMode" 17 18 1 0
    ∷ item "dispEv.operFreqChange" 17 19 1 0
    ∷ item "dispEv.vfoAFreqChange" 17 20 1 0
    ∷ item "dispEv.vfoBFreqChange" 17 21 1 0
    ∷ item "dispEv.steppirState" 17 22 1 0
    ∷ item "dispEv.smLock" 17 23 1 0
    ∷ item "dispEv.subRxFreqChange" 17 24 1 0
    ∷ item "dispEv.presetChange" 17 25 1 0
    ∷ item "dispEvLn.recMsg" 21 0 1 0
    ∷ item "dispEvLn.playMsg" 21 1 1 0
    ∷ item "dispEvLn.txDecoder" 21 2 1 0
    ∷ item "dispEvLn.rxDecoder" 21 3 1 0
    ∷ item "dispEvLn.recDecoder" 21 4 1 0
    ∷ item "dispEvLn.wpmChange" 21 5 1 0
    ∷ item "dispEvLn.steppirCmd" 21 6 1 0
    ∷ item "dispEvLn.rxFreqChange" 21 7 1 0
    ∷ item "dispEvLn.txFreqChange" 21 8 1 0
    ∷ item "dispEvLn.modeChange" 21 9 1 0
    ∷ item "dispEvLn.micChange" 21 10 1 0
    ∷ item "dispEvLn.steppirLock" 21 11 1 0
    ∷ item "dispEvLn.sysPwr" 21 12 1 1
    ∷ item "dispEvLn.wpmInCwMode" 21 13 1 0
    ∷ item "dispEvLn.cfgOverriden" 21 14 1 0
    ∷ item "dispEvLn.wpmSnControlChange" 21 15 1 0
    ∷ item "dispEvLn.snChange" 21 16 1 0
    ∷ item "dispEvLn.snInCwMode" 21 17 1 0
    ∷ item "dispEvLn.wpmSnInCwMode" 21 18 1 0
    ∷ item "dispEvLn.operFreqChange" 21 19 1 0
    ∷ item "dispEvLn.vfoAFreqChange" 21 20 1 0
    ∷ item "dispEvLn.vfoBFreqChange" 21 21 1 0
    ∷ item "dispEvLn.steppirState" 21 22 1 0
    ∷ item "dispEvLn.smLock" 21 23 1 0
    ∷ item "dispEvLn.subRxFreqChange" 21 24 1 0
    ∷ item "dispEvLn.presetChange" 21 25 1 0
    ∷ item "dispEvTime" 25 7 8 200
    ∷ item "r1FrMpkExtra_Cw.pwmMonctr" 26 4 5 0
    ∷ item "r1FrMpkExtra_Cw.reserve" 26 5 1 0
    ∷ item "r1FrMpkExtra_Cw.onAirRecActive" 26 6 1 0
    ∷ item "r1FrMpkExtra_Cw.onAirRecControlByRouter" 26 7 1 0
    ∷ item "r1FrMpkExtra_Voice.pwmMonctr" 27 4 5 0
    ∷ item "r1FrMpkExtra_Voice.reserve" 27 5 1 0
    ∷ item "r1FrMpkExtra_Voice.onAirRecActive" 27 6 1 0
    ∷ item "r1FrMpkExtra_Voice.onAirRecControlByRouter" 27 7 1 0
    ∷ item "micSelAuto" 28 0 1 1
    ∷ item "micSelFront" 28 1 1 0
    ∷ item "useAutoPtt" 28 2 1 0
    ∷ item "paddleOnlySideTone" 28 3 1 0
    ∷ item "enableSleepMode" 28 4 1 0
    ∷ item "downstreamOverFootSw" 28 5 1 0
    ∷ item "extSerBaudRate" 29 7 8 24
    ∷ item "civAddress" 40 7 8 112
    ∷ item "civBaudRate" 41 7 8 36
    ∷ item "civFunc" 42 7 8 0
    ∷ []
